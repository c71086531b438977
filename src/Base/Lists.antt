-- ===== src/Base/Lists.antt =====
-- C arrays as lists measured and indexed by native numbers, under the library's names.
use Prim.Native.Nat.{ℕ, zero, suc, ◌+◌, ◌-◌, ◌≤◌, ◌<◌, min}
use mathlib.Core.Path.{◌≡◌, refl, ap}
use mathlib.Core.List.{List, [], ◌∷◌, ◌++◌}
use native.Mathlib.Nat.{zero-add, suc-add}
use native.Mathlib.Omega.{arith}

module _ {ℓ} {A : Type ℓ} where
  abbrev pub length : List A → ℕ
  length [] = 0
  length (x ∷ xs) = suc (length xs)

  abbrev pub get_or : List A → ℕ → A → A
  get_or [] i d = d
  get_or (x ∷ xs) zero d = x
  get_or (x ∷ xs) (suc i) d = get_or xs i d

  abbrev pub take : ℕ → List A → List A
  take zero xs = []
  take (suc n) [] = []
  take (suc n) (x ∷ xs) = x ∷ take n xs

  abbrev pub drop : ℕ → List A → List A
  drop zero xs = xs
  drop (suc n) [] = []
  drop (suc n) (x ∷ xs) = drop n xs

  abbrev pub replicate : ℕ → A → List A
  replicate zero a = []
  replicate (suc n) a = a ∷ replicate n a

  -- A write out of bounds changes nothing.
  abbrev pub set : List A → ℕ → A → List A
  set [] i v = []
  set (x ∷ xs) zero v = v ∷ xs
  set (x ∷ xs) (suc i) v = x ∷ set xs i v

  -- `memcpy(array + offset, bytes, length bytes)`, the part that fits the array.
  abbrev pub write_at : List A → ℕ → List A → List A
  write_at [] i bs = []
  write_at (x ∷ xs) zero [] = x ∷ xs
  write_at (x ∷ xs) zero (b ∷ bs) = b ∷ write_at xs zero bs
  write_at (x ∷ xs) (suc i) bs = x ∷ write_at xs i bs

  pub length-append : (xs ys : List A) → length (xs ++ ys) ≡ length xs + length ys
  length-append [] ys = omega arith
  length-append (x ∷ xs) ys = omega (arith, length-append xs ys)

  pub length-set : (xs : List A) (i : ℕ) (v : A) → length (set xs i v) ≡ length xs
  length-set [] i v = refl
  length-set (x ∷ xs) zero v = refl
  length-set (x ∷ xs) (suc i) v = ap suc (length-set xs i v)

  pub length-write_at : (xs : List A) (i : ℕ) (bs : List A) → length (write_at xs i bs) ≡ length xs
  length-write_at [] i bs = refl
  length-write_at (x ∷ xs) zero [] = refl
  length-write_at (x ∷ xs) zero (b ∷ bs) = ap suc (length-write_at xs zero bs)
  length-write_at (x ∷ xs) (suc i) bs = ap suc (length-write_at xs i bs)

  pub length-take : (n : ℕ) (xs : List A) → length (take n xs) ≡ min n (length xs)
  length-take zero xs = omega arith
  length-take (suc n) [] = omega arith
  length-take (suc n) (x ∷ xs) = omega (arith, length-take n xs)

  pub length-drop : (n : ℕ) (xs : List A) → length (drop n xs) ≡ length xs - n
  length-drop zero xs = omega arith
  length-drop (suc n) [] = omega arith
  length-drop (suc n) (x ∷ xs) = omega (arith, length-drop n xs)

  -- Reading back what `write_at` wrote at the start of an array.
  pub take-write_at :
      (xs bs : List A) → length bs ≤ length xs → take (length bs) (write_at xs 0 bs) ≡ bs
  take-write_at [] [] h = refl
  take-write_at [] (b ∷ bs) h = absurd (omega arith)
  take-write_at (x ∷ xs) [] h = refl
  take-write_at (x ∷ xs) (b ∷ bs) h = ap (λ r. b ∷ r) (take-write_at xs bs (omega arith))

  pub get_or-write_at :
      (xs bs : List A) (i k : ℕ) (d : A)
      → k < length bs
      → i + k < length xs
      → get_or (write_at xs i bs) (i + k) d ≡ get_or bs k d
  get_or-write_at [] bs i k d hb hx = absurd (omega arith)
  get_or-write_at (x ∷ xs) [] zero k d hb hx = absurd (omega arith)
  get_or-write_at (x ∷ xs) (b ∷ bs) zero zero d hb hx = refl
  get_or-write_at (x ∷ xs) (b ∷ bs) zero (suc k) d hb hx =
      rw zero-add (rw zero-add at (get_or-write_at xs bs zero k d (omega arith) (omega arith)))
  get_or-write_at (x ∷ xs) bs (suc i) k d hb hx =
      rw suc-add (get_or-write_at xs bs i k d hb (omega arith))

  pub take-length : (xs : List A) → take (length xs) xs ≡ xs
  take-length [] = refl
  take-length (x ∷ xs) = ap (λ r. x ∷ r) (take-length xs)

  pub take-append-length : (xs ys : List A) → take (length xs) (xs ++ ys) ≡ xs
  take-append-length [] ys = refl
  take-append-length (x ∷ xs) ys = ap (λ r. x ∷ r) (take-append-length xs ys)
