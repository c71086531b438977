-- ===== src/Net/Commit.antt =====
-- The configuration page of device/network_core/Source/main.c: what a commit leaves in the flash,
-- and what the next boot makes of it.
use swarmit.Base.{
  set, subst, ℕ, zero, suc, ◌+◌, ◌*◌, ◌≤◌, ◌<◌, ◌≡◌, refl, ◌∙◌, ap, sym, List, [], ◌∷◌, ◌++◌, arith,
  length, get_or, take, drop, stopped,
}
use swarmit.Base.Splice.{splice, set-splice}
use swarmit.Nvmc.{Store, Flash, ren, write_from, net_geometry, erased_word, een}
use swarmit.Nvmc.Laws.{IsController, write_from_inside}
use swarmit.Shared.{chan_soc_reset, homographies_length}
use swarmit.Net.{task_send, send_task, SwarmitConfig, NetState}
use swarmit.Net.Config.{
  net_config_start_address, config_magic_value, config_words, load_words, load_struct, copy_cols,
  copy_rows, copy_matrices, commit_config_and_reboot,
}

-- The words of a list, one after another in the memory, are loaded as that list.
pub load_words-eq :
    (f : Flash) (addr : ℕ) (l : List ℕ)
    → ((k : ℕ) → k < length l → f (addr + 4 * k) ≡ get_or l k 0)
    → load_words f addr (length l) ≡ l
unfolding load_words
load_words-eq f addr [] h = refl
load_words-eq f addr (x ∷ l) h = λ i.
    head i ∷ load_words-eq f (addr + 4) l (λ k b. ap f (omega arith) ∙ h (suc k) (omega arith)) i
  where
    head : f addr ≡ x
    head = ap f (omega arith) ∙ h 0 (omega arith)

module _ {store : Store} (c : IsController net_geometry store) (s : NetState) where
  abbrev pub committed : SwarmitConfig
  committed = record s.config { magic = config_magic_value }

  abbrev pub erased_flash : Flash
  erased_flash = store een net_config_start_address erased_word s.nvmc.memory

  -- The flash after the commit.
  unfoldable pub committed_flash : Flash
  committed_flash =
      write_from store net_config_start_address (λ i. get_or (config_words committed) i 0) 0 148
        erased_flash

  committed_word :
      (k : ℕ)
      → k < 148
      → committed_flash (net_config_start_address + 4 * k) ≡ get_or (config_words committed) k 0
  unfolding committed_flash
  committed_word k h =
      write_from_inside c net_config_start_address (λ i. get_or (config_words committed) i 0) 0 148
        erased_flash k (omega arith)
        (λ j lo up.
          c.een_erases net_config_start_address erased_word (net_config_start_address + 4 * j)
            s.nvmc.memory (omega arith) (omega arith))
        (omega arith) (omega arith)

  committed_load :
      length s.config.homographies ≡ 144
      → load_struct committed_flash net_config_start_address ≡ committed
  unfolding load_struct config_words
  committed_load h = λ i. record {
    magic = word 0 (omega arith) i;
    has_net_id = word 1 (omega arith) i;
    net_id = word 2 (omega arith) i;
    homography_count = word 3 (omega arith) i;
    homographies = matrices i;
  }
    where
      word :
          (k : ℕ)
          → k < 148
          → committed_flash (net_config_start_address + 4 * k) ≡ get_or (config_words committed) k 0
      word = committed_word

      cells :
          (k : ℕ)
          → k < length s.config.homographies
          → committed_flash (net_config_start_address + 16 + 4 * k)
            ≡ get_or s.config.homographies k 0
      cells k b =
          unfold config_words in
          ap committed_flash (omega arith) ∙ word (suc (suc (suc (suc k)))) (omega arith)

      matrices :
          load_words committed_flash (net_config_start_address + 16) 144 ≡ s.config.homographies
      matrices =
          subst
            (λ n.
              load_words committed_flash (net_config_start_address + 16) n ≡ s.config.homographies)
            h
            (load_words-eq committed_flash (net_config_start_address + 16) s.config.homographies
              cells)

  -- What a commit writes is what the next boot loads: the configuration in RAM, with the magic. The
  -- core asks for a reset of the chip and goes no further. The array of the matrices has its full
  -- length, and the controller behaves as documented.
  pub commit_config_and_reboot-load :
      length s.config.homographies ≡ homographies_length
      → (s' : NetState) × (commit_config_and_reboot store s ≡ stopped s')
        × (load_struct s'.nvmc.memory net_config_start_address
            ≡ record s.config { magic = config_magic_value })
        × (s'.effects ≡ task_send chan_soc_reset ∷ s.effects)
  unfolding commit_config_and_reboot committed_flash
  commit_config_and_reboot-load h = (
    send_task chan_soc_reset
        (record s { config = committed; nvmc = record { config = ren; memory = committed_flash } }),
    refl,
    committed_load h,
    refl,
  )

-- The loops of `_load_config` go through the words of the matrices in their order.
module _ (src dst : List ℕ) where
  copy_cols-splice :
      (idx row col n k : ℕ)
      → k ≡ 9 * idx + 3 * row + col
      → k + n ≤ length src
      → k + n ≤ length dst
      → copy_cols src idx row col n (splice k src dst) ≡ splice (k + n) src dst
  unfolding copy_cols
  copy_cols-splice idx row col zero k e a b = ap (λ j. splice j src dst) (omega arith)
  copy_cols-splice idx row col (suc n) k e a b =
      ap (λ j. copy_cols src idx row (col + 1) n (set (splice k src dst) j (get_or src j 0)))
        (sym e)
      ∙ ap (copy_cols src idx row (col + 1) n) (set-splice k src dst 0 (omega arith) (omega arith))
      ∙ copy_cols-splice idx row (col + 1) n (suc k) (omega arith) (omega arith) (omega arith)
      ∙ ap (λ j. splice j src dst) (omega arith)

  copy_rows-splice :
      (idx row n k : ℕ)
      → k ≡ 9 * idx + 3 * row
      → k + 3 * n ≤ length src
      → k + 3 * n ≤ length dst
      → copy_rows src idx row n (splice k src dst) ≡ splice (k + 3 * n) src dst
  unfolding copy_rows
  copy_rows-splice idx row zero k e a b = ap (λ j. splice j src dst) (omega arith)
  copy_rows-splice idx row (suc n) k e a b =
      ap (copy_rows src idx (row + 1) n)
        (copy_cols-splice idx row 0 3 k (omega arith) (omega arith) (omega arith))
      ∙ copy_rows-splice idx (row + 1) n (k + 3) (omega arith) (omega arith) (omega arith)
      ∙ ap (λ j. splice j src dst) (omega arith)

  copy_matrices-splice :
      (idx n k : ℕ)
      → k ≡ 9 * idx
      → k + 9 * n ≤ length src
      → k + 9 * n ≤ length dst
      → copy_matrices src idx n (splice k src dst) ≡ splice (k + 9 * n) src dst
  unfolding copy_matrices
  copy_matrices-splice idx zero k e a b = ap (λ j. splice j src dst) (omega arith)
  copy_matrices-splice idx (suc n) k e a b =
      ap (copy_matrices src (idx + 1) n)
        (copy_rows-splice idx 0 3 k (omega arith) (omega arith) (omega arith))
      ∙ copy_matrices-splice (idx + 1) n (k + 9) (omega arith) (omega arith) (omega arith)
      ∙ ap (λ j. splice j src dst) (omega arith)

  -- The three nested loops of `_load_config` copy the first `n` matrices, nine words each, over the
  -- start of the shared array, and nothing else of it changes. Both arrays hold that many.
  pub copy_matrices_lem :
      (n : ℕ)
      → 9 * n ≤ length src
      → 9 * n ≤ length dst
      → copy_matrices src 0 n dst ≡ take (9 * n) src ++ drop (9 * n) dst
  copy_matrices_lem n a b =
      copy_matrices-splice 0 n 0 refl (omega arith) (omega arith)
      ∙ ap (λ j. splice j src dst) (omega arith)
