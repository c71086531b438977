-- ===== src/Base/Below.antt =====
-- Tests of every number below a bound, which evaluation decides.
use Prim.Native.Nat.{ℕ, zero, suc, ◌<◌}
use mathlib.Core.Path.{◌≡◌, subst, sym}
use mathlib.Core.Bool.{Bool, true, ◌&&◌}
use native.Mathlib.Omega.{arith}
use native.Mathlib.Decide.{ℕ_discrete}

-- A test that holds of every number below `n`.
abbrev pub all_below : ℕ → (ℕ → Bool) → Bool
all_below zero f = true
all_below (suc n) f = f n && all_below n f

pub all_below_at : (n k : ℕ) (f : ℕ → Bool) → all_below n f ≡ true → k < n → f k ≡ true
all_below_at zero k f h lt = absurd (omega arith)
all_below_at (suc n) k f h lt = elim (ℕ_discrete k n) [
  | yes e ↦ subst (λ z. f z ≡ true) (sym e) (ground arith)
  | no ne ↦ all_below_at n k f (ground arith) (omega arith)
]
