-- ===== src/App/Image.antt =====
-- Writing an image chunk by chunk (device/bootloader/Source/main.c), whatever the repetitions.
use swarmit.Base.{
  ℕ, zero, suc, ◌+◌, ◌*◌, ◌/◌, ◌≤◌, ◌<◌, ◌≡◌, ◌≢◌, ◌⊎◌, true, List, ◌∷◌, arith, Outcome, next,
  Returns, ◌>>=◌, if◌then◌else◌, Returns->>=, dec_lt, lt→ltb, ltb,
}
use swarmit.Base.Bytes.{u32_bytes}
use swarmit.Protocol.{msg_ota_chunk_ack, ready, programming, ota_chunk_size}
use swarmit.Shared.{chan_req}
use swarmit.Nvmc.{Store, Flash, erased_word, nvmc_write, write_from}
use swarmit.App.{NetCore, IsNetCore, AppState, task_send, node_tx}
use swarmit.App.Ota.{
  base_address, chunk_word, chunk_address, is_last_chunk, write_chunk, ack_chunk, finish_ota,
  notify, acknowledge, handle_ota_chunk,
}
use swarmit.App.Erase.{Sent, notify-Sent}

-- What a chunk that was asked for ends in.
pub record Acknowledged {L : Type 0} (s s' : AppState L) : Type 0 where
  pub effects :
      s'.effects
      ≡ task_send chan_req
        ∷ node_tx (msg_ota_chunk_ack ∷ u32_bytes s.shared.ota.chunk_index)
        ∷ s.effects
  pub nvmc : s'.nvmc ≡ s.nvmc
  pub base_addr : s'.base_addr ≡ s.base_addr
  pub ota_start_request : s'.ota_start_request ≡ s.ota_start_request
  pub ota : s'.shared.ota ≡ record s.shared.ota { last_chunk_acked = s.shared.ota.chunk_index }
  pub status : s'.shared.status ≡ (if is_last_chunk s.shared.ota then ready else s.shared.status)

module _ {L : Type 0} {answer : NetCore} (a : IsNetCore answer) where
  finish_ota_lem :
      (s s' : AppState L)
      → Sent (msg_ota_chunk_ack ∷ u32_bytes s.shared.ota.chunk_index) (ack_chunk s) s'
      → Acknowledged s (finish_ota s')
  unfolding finish_ota
  finish_ota_lem s s' x = record {
    effects = grind (arith, x.effects);
    nvmc = grind (arith, x.nvmc);
    base_addr = grind (arith, x.base_addr);
    ota_start_request = grind (arith, x.ota_start_request);
    ota = grind (arith, x.ota);
    status = grind (arith, x.ota, x.status);
  }

  pub acknowledge-Acknowledged : (s : AppState L) → Returns (Acknowledged s) (acknowledge answer s)
  unfolding acknowledge
  acknowledge-Acknowledged s =
      Returns->>= (Sent (msg_ota_chunk_ack ∷ u32_bytes s.shared.ota.chunk_index) (ack_chunk s))
        (Acknowledged s)
        (notify answer (msg_ota_chunk_ack ∷ u32_bytes s.shared.ota.chunk_index) (ack_chunk s))
        (λ s'. next (finish_ota s'))
        (notify-Sent a (msg_ota_chunk_ack ∷ u32_bytes s.shared.ota.chunk_index) (ack_chunk s))
        (λ s' x. finish_ota_lem s s' x)

module _ {L : Type 0} (store : Store) where
  -- The state in which a chunk was written.
  abbrev pub written : AppState L → AppState L
  written s = record s {
    nvmc =
        nvmc_write store (chunk_address s.base_addr s.shared.ota.chunk_index)
          (chunk_word s.shared.ota.chunk) s.shared.ota.chunk_size s.nvmc;
    ota_require_erase = true;
  }

  pub write_chunk-fresh :
      (s : AppState L)
      → s.shared.ota.last_chunk_acked ≢ s.shared.ota.chunk_index
      → write_chunk store s ≡ written s
  unfolding write_chunk
  write_chunk-fresh s h = ground arith

  pub write_chunk-again :
      (s : AppState L)
      → s.shared.ota.last_chunk_acked ≡ s.shared.ota.chunk_index
      → write_chunk store s ≡ s
  unfolding write_chunk
  write_chunk-again s h = ground arith

-- An image in chunks: the bytes of each one, and their number.
pub record Image : Type 0 where
  pub chunks : ℕ → List ℕ
  pub sizes : ℕ → ℕ
  pub count : ℕ

-- A chunk arrives in the shared structure, and its interrupt is served.
abbrev pub arrive : {L : Type 0} → ℕ → ℕ → List ℕ → AppState L → AppState L
arrive k size chunk s = record s {
  ota_chunk_request = true;
  shared = record s.shared {
    ota = record s.shared.ota { chunk_index = k; chunk_size = size; chunk = chunk };
  };
}

module _ {L : Type 0} (store : Store) (answer : NetCore) (m : Image) where
  unfoldable pub deliver : ℕ → AppState L → Outcome (AppState L)
  unfolding handle_ota_chunk
  deliver k s = handle_ota_chunk store answer (arrive k (m.sizes k) (m.chunks k) s)

  -- The chunk `k` arrives again, some number of times.
  unfoldable pub again : ℕ → ℕ → AppState L → Outcome (AppState L)
  unfolding deliver
  again k zero s = next s
  again k (suc r) s = deliver k s >>= again k r

module _ {L : Type 0} (store : Store) (answer : NetCore) (m : Image) (repeats : ℕ → ℕ) where
  -- The chunks from `k` on, `n` of them, each as often as the sender repeats it.
  unfoldable pub transfer : ℕ → ℕ → AppState L → Outcome (AppState L)
  unfolding again
  transfer k zero s = next s
  transfer k (suc n) s =
      (deliver store answer m k s >>= again store answer m k (repeats k)) >>= transfer (k + 1) n

-- The words of a chunk of this size, written to the flash as number `k`.
abbrev pub with_chunk : Store → ℕ → ℕ → List ℕ → Flash → Flash
with_chunk store k size chunk =
    write_from store (base_address + k * ota_chunk_size) (chunk_word chunk) 0 (size / 4)

-- The words of a buffer that a chunk of the image fills.
abbrev pub Holds : Image → ℕ → List ℕ → Type 0
Holds m k chunk = (j : ℕ) → j < m.sizes k / 4 → chunk_word chunk j ≡ chunk_word (m.chunks k) j

-- The whole words of the first `k` chunks of `m` are stored in what was the flash `f`. The rest of
-- each chunk's place is erased.
pub record Progress {L : Type 0} (m : Image) (f : Flash) (k : ℕ) (s : AppState L) : Type 0 where
  pub stored :
      (i j : ℕ)
      → i < k
      → j < m.sizes i / 4
      → s.nvmc.memory (base_address + i * ota_chunk_size + 4 * j) ≡ chunk_word (m.chunks i) j
  pub rest :
      (i j : ℕ)
      → i < k
      → m.sizes i / 4 ≤ j
      → 4 * j < ota_chunk_size
      → s.nvmc.memory (base_address + i * ota_chunk_size + 4 * j) ≡ erased_word
  pub erased :
      (b : ℕ)
      → base_address + k * ota_chunk_size ≤ b
      → b < base_address + m.count * ota_chunk_size
      → s.nvmc.memory b ≡ erased_word
  pub outside :
      (b : ℕ)
      → (b < base_address) ⊎ (base_address + m.count * ota_chunk_size ≤ b)
      → s.nvmc.memory b ≡ f b
  pub acked : 0 < k → s.shared.ota.last_chunk_acked + 1 ≡ k
  pub fresh : (i : ℕ) → k ≤ i → i < m.count → s.shared.ota.last_chunk_acked ≢ i
  pub base_addr : s.base_addr ≡ base_address
  pub chunk_count : s.shared.ota.chunk_count ≡ m.count
  pub busy : k < m.count → s.shared.status ≡ programming
  pub done : 0 < k → k ≡ m.count → s.shared.status ≡ ready

-- Word `j` of the place of a chunk once it is written: the whole words of the chunk are there. The
-- last bytes of a chunk whose size is no multiple of four are not: their word stays erased.
abbrev pub placed_word : ℕ → List ℕ → ℕ → ℕ
placed_word size chunk j = if ltb j (size / 4) then chunk_word chunk j else erased_word

pub Progress-placed_word :
    {L : Type 0} {m : Image} {f : Flash} {k : ℕ} {s : AppState L} (i j : ℕ)
    → Progress m f k s
    → i < k
    → 4 * j < ota_chunk_size
    → s.nvmc.memory (base_address + i * ota_chunk_size + 4 * j)
      ≡ placed_word (m.sizes i) (m.chunks i) j
Progress-placed_word {m = m} i j p hi hj = elim (dec_lt j (m.sizes i / 4)) [
  | yes q ↦ rw (lt→ltb j (m.sizes i / 4) q) (p.stored i j hi q)
  | no q ↦ grind (arith, p.rest i j hi (omega arith) hj)
]

-- The image fits the flash above the bootloader.
pub record Fits (m : Image) : Type 0 where
  pub sizes : (i : ℕ) → m.sizes i ≤ ota_chunk_size
  pub count : m.count * ota_chunk_size ≤ 0xf0000
