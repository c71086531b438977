-- ===== src/Startup/Clock/Laws.antt =====
-- What the start of the clocks comes to (device/bootloader/System/clock.c).
use Prim.Native.Nat.{bit_xor}
use swarmit.Base.{
  ℕ, zero, suc, ◌≤◌, ◌<◌, ◌≡◌, ◌≢◌, refl, arith, true, ◌==◌, if-elim, ltb, fault, Outcome, next,
  stopped, ◌>>=◌, Returns, ◌⊎◌, inl, inr, all_below_at,
}
use swarmit.Startup.Clock.{
  events_hfclkstarted, xosc32mcaps, hfclksrc, hfclkctrl, tasks_hfclkstart, events_lfclkstarted,
  pin_cnf, xosc32ki_intcap, lfclksrc, tasks_lfclkstart, Chip, ClockState, write, poll, cap_value,
  caps, hfclk_init, lfclk_init,
}

-- A read that shows another value ends the wait.
pub poll_lem :
    {S : Type 0} (n k : ℕ) (reads : ℕ → ℕ) (value : ℕ) (s : S)
    → k < n
    → reads k ≢ value
    → poll n reads value s ≡ next s
unfolding poll
poll_lem zero k reads value s h ne = absurd (omega arith)
poll_lem (suc n) zero reads value s h ne =
    if-elim (λ w. w ≡ next s) (reads 0 == value) (λ q. absurd (ground arith)) (λ _. refl)
poll_lem (suc n) (suc k) reads value s h ne =
    if-elim (λ w. w ≡ next s) (reads 0 == value)
      (λ _. poll_lem n k (λ i. reads (suc i)) value s (omega arith) ne) (λ _. refl)

-- What stays as it is after one part of a start stays so after the whole.
stays :
    {S : Type 0} (o : Outcome S) (f g : S → Outcome S)
    → ((s : S) → f s >>= g ≡ f s)
    → o >>= f >>= g ≡ (o >>= f)
stays (next s) f g h = h s
stays (stopped s) f g h = refl
stays fault f g h = refl

module _ (h : Chip) (x2 n : ℕ) (s : ClockState) where
  hfclk_init-again : hfclk_init h x2 n s >>= hfclk_init h x2 n ≡ hfclk_init h x2 n s
  unfolding hfclk_init
  hfclk_init-again =
      if-elim (λ w. w >>= hfclk_init h x2 n ≡ w) s.hf_enabled (λ e. ground arith)
        (λ _.
          stays (poll n h.hf_cleared 1 (write events_hfclkstarted 0 s) >>= _) _ (hfclk_init h x2 n)
            (λ s. refl))

  lfclk_init-again : lfclk_init h x2 n s >>= lfclk_init h x2 n ≡ lfclk_init h x2 n s
  unfolding lfclk_init
  lfclk_init-again =
      if-elim (λ w. w >>= lfclk_init h x2 n ≡ w) s.lf_enabled (λ e. ground arith)
        (λ _. stays (poll n h.lf_started 0 _) _ (lfclk_init h x2 n) (λ s. refl))

  -- A clock that was started is not started again: a second call of either function comes to what
  -- the first one came to, its writes included, also where the first one still waits.
  pub clock_init-again :
      (hfclk_init h x2 n s >>= hfclk_init h x2 n ≡ hfclk_init h x2 n s)
      × (lfclk_init h x2 n s >>= lfclk_init h x2 n ≡ lfclk_init h x2 n s)
  clock_init-again = (hfclk_init-again, lfclk_init-again)

bit_xor-small : (slope : ℕ) → slope < 32 → bit_xor slope 16 < 32
bit_xor-small slope h = ground (arith, all_below_at 32 slope (λ s. ltb (bit_xor s 16) 32) refl h)

-- The capacitance fits its field for either board, whatever the trim values of the factory are,
-- unless the offset of a board with the smaller capacitance is 0.
pub cap_value-small :
    (x2 slope offset : ℕ)
    → slope < 32
    → offset < 32
    → (x2 ≡ 22) ⊎ ((x2 ≡ 16) × (0 < offset))
    → cap_value 16 x2 slope offset ≤ 15
unfolding cap_value
cap_value-small x2 slope offset hs ho (inl e) = rw e (omega (arith, bit_xor-small slope hs))
cap_value-small x2 slope offset hs ho (inr (e, o)) = rw e (omega (arith, bit_xor-small slope hs))

module _ (h : Chip) (x2 n : ℕ) (s : ClockState) where
  -- The high frequency clock runs once its events show.
  pub hfclk_init-Returns :
      (j k : ℕ)
      → j < n
      → h.hf_cleared j ≢ 1
      → k < n
      → h.hf_started k ≢ 0
      → Returns (λ c. c.hf_enabled ≡ true) (hfclk_init h x2 n s)
  unfolding hfclk_init
  hfclk_init-Returns j k hj nj hk nk =
      if-elim (Returns (λ c. c.hf_enabled ≡ true)) s.hf_enabled (λ e. e)
        (λ _. rw (poll_lem n j h.hf_cleared 1 (write events_hfclkstarted 0 s) hj nj) (
          rw
            (poll_lem n k h.hf_started 0
              (write tasks_hfclkstart 1 (
                write hfclkctrl h.hclk_div1 (
                  write hfclksrc h.hfxo
                    (write xosc32mcaps (caps h x2 n) (write events_hfclkstarted 0 s)))))
              hk nk)
            refl))

  -- So does the other clock, which leaves the first one as it is.
  pub lfclk_init-Returns :
      (k : ℕ)
      → k < n
      → h.lf_started k ≢ 0
      → Returns (λ c. (c.lf_enabled ≡ true) × (c.hf_enabled ≡ s.hf_enabled)) (lfclk_init h x2 n s)
  unfolding lfclk_init
  lfclk_init-Returns k hk nk =
      if-elim (Returns (λ c. (c.lf_enabled ≡ true) × (c.hf_enabled ≡ s.hf_enabled))) s.lf_enabled
        (λ e. (e, refl))
        (λ _.
          rw
            (poll_lem n k h.lf_started 0
              (write tasks_lfclkstart 1 (
                write lfclksrc h.lfxo (
                  write xosc32ki_intcap h.intcap (
                    write (pin_cnf 1) h.mcusel_peripheral
                      (write (pin_cnf 0) h.mcusel_peripheral (write events_lfclkstarted 0 s))))))
              hk nk)
            (refl, refl))
