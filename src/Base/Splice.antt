-- ===== src/Base/Splice.antt =====
-- Filling an array from its start: the first `k` elements of one list before the rest of another.
use native.Mathlib.Nat.{zero-add, suc-add}
use swarmit.Base.{
  ℕ, zero, suc, ◌+◌, ◌-◌, ◌≤◌, ◌<◌, ◌≡◌, refl, ap, ◌∙◌, List, [], ◌∷◌, ◌++◌, arith, length, get_or,
  take, drop, set, write_at, replicate,
}

zero_minus : (k : ℕ) → 0 ≡ 0 - suc k
zero_minus k = omega arith

module _ {ℓ} {A : Type ℓ} where
  abbrev pub splice : ℕ → List A → List A → List A
  splice k src dst = take k src ++ drop k dst

  -- Copying the next element.
  pub set-splice :
      (k : ℕ) (src dst : List A) (d : A)
      → k < length src
      → k < length dst
      → set (splice k src dst) k (get_or src k d) ≡ splice (suc k) src dst
  set-splice k [] dst d h g = absurd (omega arith)
  set-splice k (x ∷ src) [] d h g = absurd (omega arith)
  set-splice zero (x ∷ src) (y ∷ dst) d h g = refl
  set-splice (suc k) (x ∷ src) (y ∷ dst) d h g =
      ap (λ r. x ∷ r) (set-splice k src dst d (omega arith) (omega arith))

  -- A copy to the start of an array.
  pub write_at-zero :
      (xs bs : List A) → length bs ≤ length xs → write_at xs 0 bs ≡ bs ++ drop (length bs) xs
  write_at-zero [] [] h = refl
  write_at-zero [] (b ∷ bs) h = absurd (omega arith)
  write_at-zero (x ∷ xs) [] h = refl
  write_at-zero (x ∷ xs) (b ∷ bs) h = ap (λ r. b ∷ r) (write_at-zero xs bs (omega arith))

  pub get_or-write_at_head :
      (xs bs : List A) (b d : A) → 0 < length xs → get_or (write_at xs 0 (b ∷ bs)) 0 d ≡ b
  get_or-write_at_head [] bs b d h = absurd (omega arith)
  get_or-write_at_head (x ∷ xs) bs b d h = refl

  -- A copy behind a first part of an array.
  pub write_at-append :
      (xs ys bs : List A) → write_at (xs ++ ys) (length xs) bs ≡ xs ++ write_at ys 0 bs
  write_at-append [] ys bs = refl
  write_at-append (x ∷ xs) ys bs = ap (λ r. x ∷ r) (write_at-append xs ys bs)

  pub drop-replicate : (k n : ℕ) (a : A) → drop k (replicate n a) ≡ replicate (n - k) a
  drop-replicate zero n a = ap (λ m. replicate m a) (omega arith)
  drop-replicate (suc k) zero a = ap (λ m. replicate m a) (zero_minus k)
  drop-replicate (suc k) (suc n) a = drop-replicate k n a ∙ ap (λ m. replicate m a) (omega arith)

  pub get_or-append :
      (xs ys : List A) (k : ℕ) (d : A) → get_or (xs ++ ys) (length xs + k) d ≡ get_or ys k d
  get_or-append [] ys k d = rw zero-add
  get_or-append (x ∷ xs) ys k d = rw suc-add (get_or-append xs ys k d)

  pub get_or-append_head :
      (xs ys : List A) (k : ℕ) (d : A) → k < length xs → get_or (xs ++ ys) k d ≡ get_or xs k d
  get_or-append_head [] ys k d h = absurd (omega arith)
  get_or-append_head (x ∷ xs) ys zero d h = refl
  get_or-append_head (x ∷ xs) ys (suc k) d h = get_or-append_head xs ys k d (omega arith)

  pub take-append_exact : (n : ℕ) (xs ys : List A) → length xs ≡ n → take n (xs ++ ys) ≡ xs
  take-append_exact zero [] ys h = refl
  take-append_exact zero (x ∷ xs) ys h = absurd (omega arith)
  take-append_exact (suc n) [] ys h = absurd (omega arith)
  take-append_exact (suc n) (x ∷ xs) ys h =
      ap (λ r. x ∷ r) (take-append_exact n xs ys (omega arith))

pub length-replicate {ℓ} : {A : Type ℓ} (n : ℕ) (a : A) → length (replicate n a) ≡ n
length-replicate zero a = refl
length-replicate (suc n) a = ap suc (length-replicate n a)
