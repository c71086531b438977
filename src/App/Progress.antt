-- ===== src/App/Progress.antt =====
-- Each delivery of a chunk takes an update forward (device/bootloader/Source/main.c).
use swarmit.Base.{
  ℕ, zero, suc, ◌+◌, ◌*◌, ◌/◌, ◌≤◌, ◌<◌, ◌≡◌, ◌⊎◌, inl, inr, ◌∙◌, ap, false, arith, dec_lt, Returns,
  ◌>>=◌, Returns-map, Returns->>=, subst, sym, ◌^◌, refl, List,
}
use swarmit.Protocol.{ota_chunk_size}
use swarmit.Nvmc.{Store, Flash, app_geometry, nvmc_write, write_from, erased_word}
use swarmit.Nvmc.Laws.{IsController, write_from_outside, write_from_inside}
use swarmit.App.{NetCore, IsNetCore, AppState}
use swarmit.App.Ota.{base_address, chunk_word, chunk_address, acknowledge, handle_ota_chunk}
use swarmit.App.Image.{
  Acknowledged, acknowledge-Acknowledged, written, write_chunk-fresh, write_chunk-again, Image,
  arrive, deliver, again, transfer, with_chunk, Progress, Fits, Holds,
}

end :
    (m : Image)
    → Fits m
    → (k : ℕ) → k < m.count
    → base_address + k * ota_chunk_size + 4 * (0 + m.sizes k / 4) ≤ 2 ^ 32
end m fits k h = omega (arith, fits.sizes k, fits.count, h)

module _ {L : Type 0} {store : Store} {answer : NetCore} (c : IsController app_geometry store)
    (a : IsNetCore answer) (m : Image) (fits : Fits m) (f : Flash) where
  written-memory :
      (k : ℕ) (chunk : List ℕ) (s : AppState L)
      → k < m.count
      → s.base_addr ≡ base_address
      → (written store (arrive k (m.sizes k) chunk s)).nvmc.memory
        ≡ with_chunk store k (m.sizes k) chunk s.nvmc.memory
  unfolding nvmc_write
  written-memory k chunk s h e =
      ap (λ b. write_from store b (chunk_word chunk) 0 (m.sizes k / 4) s.nvmc.memory) place
    where
      place : chunk_address s.base_addr k ≡ base_address + k * ota_chunk_size
      place = omega (arith, e, fits.count)

  store-Progress :
      (k : ℕ) (chunk : List ℕ) (s s' : AppState L)
      → k < m.count
      → Holds m k chunk
      → Progress m f k s
      → Acknowledged
          (written store (record (arrive k (m.sizes k) chunk s) { ota_chunk_request = false }))
          s'
      → Progress m f (k + 1) s'
  store-Progress k chunk s s' h holds p x = record {
    stored = λ i j hi hj. memory (base_address + i * ota_chunk_size + 4 * j) ∙ stored i j hi hj;
    rest = λ i j hi hj up. memory (base_address + i * ota_chunk_size + 4 * j) ∙ rest i j hi hj up;
    erased = λ b lo up.
        memory b ∙ kept b (inr (omega (arith, lo, fits.sizes k))) ∙ p.erased b (omega arith) up;
    outside = λ b o. memory b ∙ kept b (outer b o) ∙ p.outside b o;
    acked = λ _. ap (λ n. n + 1) (last_lem);
    fresh = λ i lo up e. omega (arith, last_lem, e, lo);
    base_addr = x.base_addr ∙ p.base_addr;
    chunk_count = ap (λ o. o.chunk_count) x.ota ∙ p.chunk_count;
    busy = λ q. x.status ∙ grind (arith, p.chunk_count, p.busy h, q);
    done = λ _ q. x.status ∙ grind (arith, p.chunk_count, q, fits.count, h);
  }
    where
      last_lem : s'.shared.ota.last_chunk_acked ≡ k
      last_lem = ap (λ o. o.last_chunk_acked) x.ota

      memory : (b : ℕ) → s'.nvmc.memory b ≡ with_chunk store k (m.sizes k) chunk s.nvmc.memory b
      memory b =
          ap (λ n. n.memory b) x.nvmc ∙ ap (λ g. g b) (written-memory k chunk s h p.base_addr)

      kept :
          (b : ℕ)
          → (b < base_address + k * ota_chunk_size + 4 * 0)
            ⊎ (base_address + k * ota_chunk_size + 4 * (0 + m.sizes k / 4) ≤ b)
          → with_chunk store k (m.sizes k) chunk s.nvmc.memory b ≡ s.nvmc.memory b
      kept b o =
          write_from_outside c (base_address + k * ota_chunk_size) (chunk_word chunk) 0
            (m.sizes k / 4) s.nvmc.memory b (end m fits k h) o

      outer :
          (b : ℕ)
          → (b < base_address) ⊎ (base_address + m.count * ota_chunk_size ≤ b)
          → (b < base_address + k * ota_chunk_size + 4 * 0)
            ⊎ (base_address + k * ota_chunk_size + 4 * (0 + m.sizes k / 4) ≤ b)
      outer b (inl o) = inl (omega arith)
      outer b (inr o) = inr (omega (arith, o, h, fits.sizes k))

      size : {i j : ℕ} → k ≡ i → j < m.sizes i / 4 → j < m.sizes k / 4
      size {i} {j} q hj = subst (λ z. j < m.sizes z / 4) (sym q) hj

      here :
          (i j : ℕ)
          → k ≡ i
          → j < m.sizes i / 4
          → with_chunk store k
              (m.sizes k)
              chunk
              s.nvmc.memory
              (base_address + i * ota_chunk_size + 4 * j)
            ≡ chunk_word (m.chunks i) j
      here i j q hj = rw (← q) (
          write_from_inside c (base_address + k * ota_chunk_size) (chunk_word chunk) 0
            (m.sizes k / 4) s.nvmc.memory j (end m fits k h)
            (λ l lo up.
              p.erased (base_address + k * ota_chunk_size + 4 * l) (omega arith)
                (omega (arith, up, h, fits.sizes k)))
            (omega arith) (omega (arith, size q hj))
          ∙ holds j (size q hj))

      stored :
          (i j : ℕ)
          → i < k + 1
          → j < m.sizes i / 4
          → with_chunk store k
              (m.sizes k)
              chunk
              s.nvmc.memory
              (base_address + i * ota_chunk_size + 4 * j)
            ≡ chunk_word (m.chunks i) j
      stored i j hi hj = elim (dec_lt i k) [
        | yes q ↦
            kept (base_address + i * ota_chunk_size + 4 * j)
              (inl (omega (arith, q, hj, fits.sizes i)))
            ∙ p.stored i j q hj
        | no q ↦ here i j (omega arith) hj
      ]

      past :
          (i j : ℕ)
          → k ≡ i
          → m.sizes i / 4 ≤ j
          → base_address + k * ota_chunk_size + 4 * (0 + m.sizes k / 4)
            ≤ base_address + i * ota_chunk_size + 4 * j
      past i j q hj = rw (← q) (omega (arith, subst (λ z. m.sizes z / 4 ≤ j) (sym q) hj))

      rest :
          (i j : ℕ)
          → i < k + 1
          → m.sizes i / 4 ≤ j
          → 4 * j < ota_chunk_size
          → with_chunk store k
              (m.sizes k)
              chunk
              s.nvmc.memory
              (base_address + i * ota_chunk_size + 4 * j)
            ≡ erased_word
      rest i j hi hj up = elim (dec_lt i k) [
        | yes q ↦
            kept (base_address + i * ota_chunk_size + 4 * j) (inl (omega (arith, q, up)))
            ∙ p.rest i j q hj up
        | no q ↦
            kept (base_address + i * ota_chunk_size + 4 * j) (inr (past i j (omega arith) hj))
            ∙ p.erased (base_address + i * ota_chunk_size + 4 * j) (omega arith)
                (omega (arith, h, up))
      ]

  -- A chunk that is acknowledged again leaves the progress as it is.
  same-Progress :
      (k size : ℕ) (chunk : List ℕ) (s s' : AppState L)
      → k < m.count
      → Progress m f (k + 1) s
      → Acknowledged (record (arrive k size chunk s) { ota_chunk_request = false }) s'
      → Progress m f (k + 1) s'
  same-Progress k size chunk s s' h p x = record {
    stored = λ i j hi hj. memory (base_address + i * ota_chunk_size + 4 * j) ∙ p.stored i j hi hj;
    rest = λ i j hi hj up. memory (base_address + i * ota_chunk_size + 4 * j) ∙ p.rest i j hi hj up;
    erased = λ b lo up. memory b ∙ p.erased b lo up;
    outside = λ b o. memory b ∙ p.outside b o;
    acked = λ _. ap (λ n. n + 1) last_lem;
    fresh = λ i lo up e. omega (arith, last_lem, e, lo);
    base_addr = x.base_addr ∙ p.base_addr;
    chunk_count = ap (λ o. o.chunk_count) x.ota ∙ p.chunk_count;
    busy = λ q. x.status ∙ grind (arith, p.chunk_count, p.busy q, q);
    done = λ _ q. x.status ∙ grind (arith, p.chunk_count, q, fits.count, h);
  }
    where
      last_lem : s'.shared.ota.last_chunk_acked ≡ k
      last_lem = ap (λ o. o.last_chunk_acked) x.ota

      memory : (b : ℕ) → s'.nvmc.memory b ≡ s.nvmc.memory b
      memory b = ap (λ n. n.memory b) x.nvmc

  -- The next chunk arrives, in a buffer that holds it.
  pub arrive-fresh :
      (k : ℕ) (chunk : List ℕ) (s : AppState L)
      → k < m.count
      → Holds m k chunk
      → Progress m f k s
      → Returns
          (Progress m f (k + 1))
          (handle_ota_chunk store answer (arrive k (m.sizes k) chunk s))
  unfolding handle_ota_chunk
  arrive-fresh k chunk s h holds p = rw (write_chunk-fresh store s1 (p.fresh k (omega arith) h)) (
      Returns-map (acknowledge answer (written store s1))
        (acknowledge-Acknowledged a (written store s1))
        (λ s'. store-Progress k chunk s s' h holds p))
    where
      s1 : AppState L
      s1 = record (arrive k (m.sizes k) chunk s) { ota_chunk_request = false }

  -- The same chunk arrives again, whatever the buffer holds.
  pub arrive-again :
      (k size : ℕ) (chunk : List ℕ) (s : AppState L)
      → k < m.count
      → Progress m f (k + 1) s
      → Returns (Progress m f (k + 1)) (handle_ota_chunk store answer (arrive k size chunk s))
  unfolding handle_ota_chunk
  arrive-again k size chunk s h p =
      rw (write_chunk-again store s1 (omega (arith, p.acked (omega arith)))) (
        Returns-map (acknowledge answer s1) (acknowledge-Acknowledged a s1)
          (λ s'. same-Progress k size chunk s s' h p))
    where
      s1 : AppState L
      s1 = record (arrive k size chunk s) { ota_chunk_request = false }

  again_lem :
      (k r : ℕ) (s : AppState L)
      → k < m.count
      → Progress m f (k + 1) s
      → Returns (Progress m f (k + 1)) (again store answer m k r s)
  unfolding again deliver
  again_lem k zero s h p = p
  again_lem k (suc r) s h p =
      Returns->>= (Progress m f (k + 1)) (Progress m f (k + 1)) (deliver store answer m k s)
        (again store answer m k r) (arrive-again k (m.sizes k) (m.chunks k) s h p)
        (λ s' p'. again_lem k r s' h p')

  module _ (repeats : ℕ → ℕ) where
    pub transfer_lem :
        (k n : ℕ) (s : AppState L)
        → k + n ≡ m.count
        → Progress m f k s
        → Returns (Progress m f m.count) (transfer store answer m repeats k n s)
    unfolding transfer deliver
    transfer_lem k zero s e p = subst (λ z. Progress m f z s) (omega (arith, e)) p
    transfer_lem k (suc n) s e p =
        Returns->>= (Progress m f (k + 1)) (Progress m f m.count)
          (deliver store answer m k s >>= again store answer m k (repeats k))
          (transfer store answer m repeats (k + 1) n)
          (Returns->>= (Progress m f (k + 1)) (Progress m f (k + 1)) (deliver store answer m k s)
            (again store answer m k (repeats k))
            (arrive-fresh k (m.chunks k) s (omega (arith, e)) (λ j q. refl) p)
            (λ s' p'. again_lem k (repeats k) s' (omega (arith, e)) p'))
          (λ s' p'. transfer_lem (k + 1) n s' (omega (arith, e)) p')
