-- ===== src/Startup/Loops.antt =====
-- What the loops of the start-up code (device/bootloader-single-core/System/startup.c) come to.
use swarmit.Base.{
  ℕ, zero, suc, subst, ==_iff, ◌+◌, ◌-◌, ◌≤◌, ◌<◌, ◌≡◌, ◌≢◌, ◌⊎◌, inl, inr, refl, ◌∙◌, ap, sym,
  arith, ltb, leb, ◌==◌, ◌&&◌, if◌then◌else◌, if-elim, dec_lt, ℕ_discrete, List, next, stopped,
}
use swarmit.Tz.{assign}
use swarmit.Startup.{Memory, copy, clear, relocate, copy_tdata, call_constructors}

-- The words from `dst` to `end` are those from `src` on.
abbrev pub moved : ℕ → ℕ → ℕ → Memory → Memory
moved dst src end m a = if leb dst a && ltb a end then m (src + (a - dst)) else m a

abbrev pub cleared : ℕ → ℕ → Memory → Memory
cleared dst end m a = if leb dst a && ltb a end then 0 else m a

moved-at_end : (dst src end : ℕ) (m : Memory) (a : ℕ) → end ≤ dst → moved dst src end m a ≡ m a
moved-at_end dst src end m a h = ground arith

cleared-at_end : (dst end : ℕ) (m : Memory) (a : ℕ) → end ≤ dst → cleared dst end m a ≡ m a
cleared-at_end dst end m a h = ground arith

moved-place : (dst end : ℕ) (m : Memory) (a : ℕ) → moved dst dst end m a ≡ m a
moved-place dst end m a = elim (dec_lt a dst) [
  | yes p ↦ ground arith
  | no p ↦ if-elim (λ w. w ≡ m a) (leb dst a && ltb a end) (λ _. ap m (omega arith)) (λ _. refl)
]

moved-step :
    (dst src end : ℕ) (m : Memory) (a : ℕ)
    → dst < end
    → (dst ≤ src) ⊎ (src + (end - dst) ≤ dst)
    → moved (dst + 1) (src + 1) end (assign dst (m src) m) a ≡ moved dst src end m a
moved-step dst src end m a h o = elim (ℕ_discrete a dst) [
  | yes p ↦
      if-elim (λ w. moved (dst + 1) (src + 1) end (assign dst (m src) m) a ≡ w)
        (leb dst a && ltb a end) (λ q. ground (arith, ap m (here p))) (λ q. ground arith)
  | no p ↦
      if-elim (λ w. moved (dst + 1) (src + 1) end (assign dst (m src) m) a ≡ w)
        (leb dst a && ltb a end) (λ q. ground (arith, ap m (there (ground arith))))
        (λ q. ground arith)
]
  where
    here : a ≡ dst → src ≡ src + (a - dst)
    here e = omega arith

    there : dst < a → src + 1 + (a - (dst + 1)) ≡ src + (a - dst)
    there e = omega arith

cleared-step :
    (dst end : ℕ) (m : Memory) (a : ℕ)
    → dst < end
    → cleared (dst + 1) end (assign dst 0 m) a ≡ cleared dst end m a
cleared-step dst end m a h = ground arith

-- The order of the words, for the rest of a loop.
later :
    (dst src end : ℕ)
    → dst < end
    → (dst ≤ src) ⊎ (src + (end - dst) ≤ dst)
    → (dst + 1 ≤ src + 1) ⊎ (src + 1 + (end - (dst + 1)) ≤ dst + 1)
later dst src end h (inl x) = inl (omega arith)
later dst src end h (inr x) = inr (omega arith)

-- A copy to lower words, or to words past those it reads, comes back with its words in place.
pub copy_lem :
    (n dst src end : ℕ) (m : Memory)
    → end ≤ dst + n
    → (dst ≤ src) ⊎ (src + (end - dst) ≤ dst)
    → copy n dst src end m ≡ next (moved dst src end m)
unfolding copy
copy_lem zero dst src end m h o =
    if-elim (λ w. w ≡ next (moved dst src end m)) (ltb dst end) (λ q. absurd (ground arith))
      (λ q. ap next (sym (λ i a. moved-at_end dst src end m a (omega arith) i)))
copy_lem (suc n) dst src end m h o =
    if-elim (λ w. w ≡ next (moved dst src end m)) (ltb dst end)
      (λ q.
        copy_lem n (dst + 1) (src + 1) end (assign dst (m src) m) (omega arith)
          (later dst src end (ground arith) o)
        ∙ ap next (λ i a. moved-step dst src end m a (ground arith) o i))
      (λ q. ap next (sym (λ i a. moved-at_end dst src end m a (ground arith) i)))

pub clear_lem :
    (n dst end : ℕ) (m : Memory) → end ≤ dst + n → clear n dst end m ≡ next (cleared dst end m)
unfolding clear
clear_lem zero dst end m h =
    if-elim (λ w. w ≡ next (cleared dst end m)) (ltb dst end) (λ q. absurd (ground arith))
      (λ q. ap next (sym (λ i a. cleared-at_end dst end m a (omega arith) i)))
clear_lem (suc n) dst end m h =
    if-elim (λ w. w ≡ next (cleared dst end m)) (ltb dst end)
      (λ q.
        clear_lem n (dst + 1) end (assign dst 0 m) (omega arith)
        ∙ ap next (λ i a. cleared-step dst end m a (ground arith) i))
      (λ q. ap next (sym (λ i a. cleared-at_end dst end m a (ground arith) i)))

pub relocate_lem :
    (n dst src end : ℕ) (m : Memory)
    → end ≤ dst + n
    → (dst ≤ src) ⊎ (src + (end - dst) ≤ dst)
    → relocate n dst src end m ≡ next (moved dst src end m)
unfolding relocate
relocate_lem zero dst src end m h o =
    if-elim (λ w. w ≡ next (moved dst src end m)) (ltb dst end) (λ q. absurd (ground arith))
      (λ q. ap next (sym (λ i a. moved-at_end dst src end m a (omega arith) i)))
relocate_lem (suc n) dst src end m h o =
    if-elim (λ w. w ≡ next (moved dst src end m)) (ltb dst end)
      (λ q.
        if-elim (λ w. w ≡ next (moved dst src end m)) (dst == src)
          (λ e. ap next (sym (λ i a. here ((==_iff dst src).0 e) a i)))
          (λ _.
            relocate_lem n (dst + 1) (src + 1) end (assign dst (m src) m) (omega arith)
              (later dst src end (ground arith) o)
            ∙ ap next (λ i a. moved-step dst src end m a (ground arith) o i)))
      (λ q. ap next (sym (λ i a. moved-at_end dst src end m a (ground arith) i)))
  where
    here : dst ≡ src → (a : ℕ) → moved dst src end m a ≡ m a
    here e a = subst (λ z. moved dst z end m a ≡ m a) e (moved-place dst end m a)

-- A section that is in its place stays as it is.
assign_same : (dst src : ℕ) (m : Memory) (a : ℕ) → dst ≡ src → assign dst (m src) m a ≡ m a
assign_same dst src m a e =
    if-elim (λ w. w ≡ m a) (a == dst) (λ q. ap m (e' ((==_iff a dst).0 q))) (λ _. refl)
  where
    e' : a ≡ dst → src ≡ a
    e' q = omega arith

pub copy_tdata-place :
    (n dst src end : ℕ) (m : Memory)
    → end ≤ dst + n
    → (dst ≡ src) ⊎ (end ≤ dst)
    → copy_tdata n dst src end m ≡ next m
unfolding copy_tdata
copy_tdata-place zero dst src end m h o =
    if-elim (λ w. w ≡ next m) (ltb dst end) (λ q. absurd (ground arith)) (λ _. refl)
copy_tdata-place (suc n) dst src end m h (inr o) =
    if-elim (λ w. w ≡ next m) (ltb dst end) (λ q. absurd (ground arith)) (λ _. refl)
copy_tdata-place (suc n) dst src end m h (inl o) =
    if-elim (λ w. w ≡ next m) (ltb dst end)
      (λ q.
        if-elim (λ w. w ≡ next m) (dst == src)
          (λ _.
            copy_tdata-place n (dst + 1) (src + 1) end (assign dst (m src) m) (omega arith)
              (inl (omega arith))
            ∙ ap next (λ i a. assign_same dst src m a o i))
          (λ e. absurd (ground arith)))
      (λ _. refl)

-- A section that is to be moved is never moved, and the loop never ends.
pub copy_tdata-stuck :
    (n dst src end : ℕ) (m : Memory)
    → dst < end
    → dst ≢ src
    → copy_tdata n dst src end m ≡ stopped m
unfolding copy_tdata
copy_tdata-stuck zero dst src end m h ne = ground arith
copy_tdata-stuck (suc n) dst src end m h ne =
    if-elim (λ w. w ≡ stopped m) (ltb dst end)
      (λ _.
        if-elim (λ w. w ≡ stopped m) (dst == src) (λ e. absurd (ground arith))
          (λ _. copy_tdata-stuck n dst src end m h ne))
      (λ q. absurd (ground arith))

pub call_constructors-none :
    (n place func end : ℕ) (calls : List ℕ)
    → end ≤ place
    → call_constructors n place func end calls ≡ next calls
unfolding call_constructors
call_constructors-none zero place func end calls h = ground arith
call_constructors-none (suc n) place func end calls h =
    if-elim (λ w. w ≡ next calls) (ltb place end) (λ q. absurd (ground arith)) (λ _. refl)
