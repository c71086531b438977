-- ===== src/Nvmc/Laws.antt =====
-- What the flash driver relies on in the controller, and what it then gives.
use swarmit.Base.{
  ℕ, zero, suc, ◌+◌, ◌*◌, ◌≤◌, ◌<◌, ◌≡◌, refl, ◌∙◌, ◌≢◌, ◌⊎◌, inl, arith, dec_lt, ◌%◌, ◌^◌,
}
use swarmit.Nvmc.{Store, Flash, wen, een, Geometry, erased_word, write_from}

-- The documented behaviour of the controller: in write mode an erased word takes the value stored
-- to it and no other word changes; in erase mode a store to the first word of a page erases that
-- page and nothing else.
pub record IsController (g : Geometry) (store : Store) : Type 0 where
  pub wen_writes : (a v : ℕ) (f : Flash) → f a ≡ erased_word → store wen a v f a ≡ v
  pub wen_keeps : (a v b : ℕ) (f : Flash) → b ≢ a → store wen a v f b ≡ f b
  pub een_erases :
      (a v b : ℕ) (f : Flash) → a ≤ b → b < a + g.page_size → store een a v f b ≡ erased_word
  pub een_keeps :
      (a v b : ℕ) (f : Flash) → (b < a) ⊎ (a + g.page_size ≤ b) → store een a v f b ≡ f b

module _ {g : Geometry} {store : Store} (c : IsController g store) where
  -- The loop changes no word outside the ones it is to write.
  pub write_from_outside :
      (addr : ℕ) (src : ℕ → ℕ) (i n : ℕ) (f : Flash) (b : ℕ)
      → addr + 4 * (i + n) ≤ 2 ^ 32
      → (b < addr + 4 * i) ⊎ (addr + 4 * (i + n) ≤ b)
      → write_from store addr src i n f b ≡ f b
  unfolding write_from
  write_from_outside addr src i zero f b w h = refl
  write_from_outside addr src i (suc n) f b w h =
      write_from_outside addr src (i + 1) n (store wen ((addr + 4 * i) % 2 ^ 32) (src i) f) b
        (omega arith) (ground arith)
      ∙ c.wen_keeps ((addr + 4 * i) % 2 ^ 32) (src i) b f (ground arith)

  -- On erased words the loop leaves the words of its source.
  pub write_from_inside :
      (addr : ℕ) (src : ℕ → ℕ) (i n : ℕ) (f : Flash) (k : ℕ)
      → addr + 4 * (i + n) ≤ 2 ^ 32
      → ((j : ℕ) → i ≤ j → j < i + n → f (addr + 4 * j) ≡ erased_word)
      → i ≤ k
      → k < i + n
      → write_from store addr src i n f (addr + 4 * k) ≡ src k
  unfolding write_from
  write_from_inside addr src i zero f k w e hi hn = absurd (omega arith)
  write_from_inside addr src i (suc n) f k w e hi hn = elim (dec_lt i k) [
    | yes p ↦
        write_from_inside addr src (i + 1) n (store wen ((addr + 4 * i) % 2 ^ 32) (src i) f) k
          (omega arith)
          (λ j lo up.
            c.wen_keeps ((addr + 4 * i) % 2 ^ 32) (src i) (addr + 4 * j) f (omega arith)
            ∙ e j (omega arith) (omega arith))
          (omega arith) (omega arith)
    | no p ↦ here (omega arith)
  ]
    where
      place : (addr + 4 * i) % 2 ^ 32 ≡ addr + 4 * i
      place = omega arith

      here :
          i ≡ k
          → write_from store addr src
              (i + 1)
              n
              (store wen ((addr + 4 * i) % 2 ^ 32) (src i) f)
              (addr + 4 * k)
            ≡ src k
      here q =
          rw (← q, place)
            (write_from_outside addr src (i + 1) n (store wen (addr + 4 * i) (src i) f)
                (addr + 4 * i) (omega arith) (inl (omega arith))
              ∙ c.wen_writes (addr + 4 * i) (src i) f (e i (omega arith) (omega arith)))
