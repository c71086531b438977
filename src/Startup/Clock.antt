-- ===== src/Startup/Clock.antt =====
-- device/bootloader/System/clock.c: the start of the two clocks of the application core.
pub mod Laws
use Prim.Native.Nat.{bit_and, bit_or, bit_xor}
use swarmit.Base.{
  ℕ, zero, suc, ◌+◌, ◌-◌, ◌*◌, ◌/◌, ◌%◌, ◌^◌, ◌≤◌, ◌<◌, ◌≡◌, ◌≢◌, refl, arith, Bool, true, List,
  ◌∷◌, ◌==◌, if◌then◌else◌, if-elim, ℕ_discrete, subst, sym, ltb, ◌&&◌, fault, Outcome, next,
  stopped, ◌>>=◌, Returns, ◌⊎◌, inl, inr,
}

pub data Register : Type 0 where
  events_hfclkstarted : Register
  xosc32mcaps : Register
  hfclksrc : Register
  hfclkctrl : Register
  tasks_hfclkstart : Register
  events_lfclkstarted : Register
  pin_cnf : ℕ → Register
  xosc32ki_intcap : Register
  lfclksrc : Register
  tasks_lfclkstart : Register
  vregradio_dcdcen : Register
  vregmain_dcdcen : Register
  vregh_dcdcen : Register

-- The values of the header of the chip, and what its registers read: the trim values of the
-- factory, and the event registers, read after read.
pub record Chip : Type 0 where
  pub slope_msk : ℕ
  pub slope_pos : ℕ
  pub offset_msk : ℕ
  pub offset_pos : ℕ
  pub caps_enabled : ℕ
  pub hfxo : ℕ
  pub hclk_div1 : ℕ
  pub mcusel_peripheral : ℕ
  pub intcap : ℕ
  pub lfxo : ℕ
  pub dcdc_disabled : ℕ
  pub xosc32mtrim : ℕ
  pub hf_cleared : ℕ → ℕ
  pub hf_started : ℕ → ℕ
  pub lf_started : ℕ → ℕ

-- The flags of `_clock_state`, and the writes to the registers, the last one first.
pub record ClockState : Type 0 where
  pub hf_enabled : Bool
  pub lf_enabled : Bool
  pub writes : List (Register × ℕ)

abbrev pub write : Register → ℕ → ClockState → ClockState
write r v s = record s { writes = (r, v) ∷ s.writes }

-- `while (register == value) {}`
unfoldable pub poll : {S : Type 0} → ℕ → (ℕ → ℕ) → ℕ → S → Outcome S
poll zero reads value s = stopped s
poll (suc n) reads value s =
    let rest = poll n (λ i. reads (suc i)) value s in if reads 0 == value then rest else next s

-- The capacitance of the crystal. `x2` is NRF53_XOSC32_CAPACITANCE_X2, and all wraps as a
-- `uint32_t`: the slope is signed, and so is its product before it meets the offset.
unfoldable pub cap_value : ℕ → ℕ → ℕ → ℕ → ℕ
cap_value sign x2 slope offset =
    ((bit_xor slope sign + 2 ^ 32 - sign + 56) * (x2 - 14) + (offset + 2 ^ 32 - 8) * 2 ^ 4 + 32)
    % 2 ^ 32
    / 2 ^ 6

module _ (h : Chip) (x2 n : ℕ) where
  abbrev slope_sign : ℕ
  slope_sign = h.slope_msk / 2 ^ h.slope_pos - h.slope_msk / 2 ^ h.slope_pos / 2

  -- NRF_OSCILLATORS_S->XOSC32MCAPS
  unfoldable pub caps : ℕ
  unfolding cap_value
  caps = bit_or h.caps_enabled (
      cap_value slope_sign x2 (bit_and h.xosc32mtrim h.slope_msk / 2 ^ h.slope_pos)
        (bit_and h.xosc32mtrim h.offset_msk / 2 ^ h.offset_pos))

  unfoldable pub hfclk_init : ClockState → Outcome ClockState
  unfolding caps
  hfclk_init s =
      if s.hf_enabled
      then next s
      else poll n h.hf_cleared 1 (write events_hfclkstarted 0 s)
        >>= (λ s. poll n h.hf_started 0 (
            write tasks_hfclkstart 1
              (write hfclkctrl h.hclk_div1 (write hfclksrc h.hfxo (write xosc32mcaps caps s)))))
        >>= (λ s. next (record s { hf_enabled = true }))

  unfoldable pub lfclk_init : ClockState → Outcome ClockState
  lfclk_init s =
      if s.lf_enabled
      then next s
      else poll n h.lf_started 0 (
          write tasks_lfclkstart 1 (
            write lfclksrc h.lfxo (
              write xosc32ki_intcap h.intcap (
                write (pin_cnf 1) h.mcusel_peripheral
                  (write (pin_cnf 0) h.mcusel_peripheral (write events_lfclkstarted 0 s))))))
        >>= (λ s. next (record s { lf_enabled = true }))
