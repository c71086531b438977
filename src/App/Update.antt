-- ===== src/App/Update.antt =====
-- A whole update: the start, and then every chunk (device/bootloader/Source/main.c).
use swarmit.Base.{
  ℕ, ◌+◌, ◌*◌, ◌≤◌, ◌<◌, ◌≡◌, ◌⊎◌, inl, inr, refl, ◌∙◌, ap, true, arith, Returns, ◌>>=◌,
  Returns-map, Returns->>=,
}
use swarmit.Protocol.{ready, programming, ota_chunk_size}
use swarmit.Shared.{no_chunk_acked}
use swarmit.Nvmc.{Store, app_geometry}
use swarmit.Nvmc.Laws.{IsController}
use swarmit.App.{NetCore, IsNetCore, AppState}
use swarmit.App.Ota.{base_address, handle_ota_start}
use swarmit.App.Erase.{
  Started, erased_image, image_limit, image_limit_lem, erased_image_inside, erased_image_outside,
  handle_ota_start-Started,
}
use swarmit.App.Image.{Image, transfer, Progress, Fits, placed_word, Progress-placed_word}
use swarmit.App.Progress.{transfer_lem}

-- A start of an update was asked for, of an image of this number of chunks.
pub record IsAsked {L : Type 0} (m : Image) (s : AppState L) : Type 0 where
  pub request : s.ota_start_request ≡ true
  pub erase : s.ota_require_erase ≡ true
  pub base_addr : s.base_addr ≡ base_address
  pub chunk_count : s.shared.ota.chunk_count ≡ m.count
  pub size : s.shared.ota.image_size ≤ 0xf0000
  pub most : m.count * ota_chunk_size < s.shared.ota.image_size + ota_chunk_size
  pub acked : s.shared.ota.last_chunk_acked ≡ no_chunk_acked
  pub status : s.shared.status ≡ programming

-- The whole words of each chunk are in the flash, whose other pages are as they were.
record Complete {L : Type 0} (m : Image) (s s' : AppState L) : Type 0 where
  pub placed :
      (i j : ℕ)
      → i < m.count
      → 4 * j < ota_chunk_size
      → s'.nvmc.memory (base_address + i * ota_chunk_size + 4 * j)
        ≡ placed_word (m.sizes i) (m.chunks i) j
  pub kept :
      (b : ℕ)
      → (b < base_address) ⊎ (image_limit s.shared.ota.image_size ≤ b)
      → s'.nvmc.memory b ≡ s.nvmc.memory b
  pub status : s'.shared.status ≡ ready

module _ {L : Type 0} {store : Store} {answer : NetCore} (c : IsController app_geometry store)
    (a : IsNetCore answer) (m : Image) (fits : Fits m) (repeats : ℕ → ℕ) where
  pub Started-Progress :
      (s s' : AppState L)
      → 0 < m.count
      → IsAsked m s
      → Started s s'
      → Progress m (erased_image s.shared.ota.image_size s.nvmc.memory) 0 s'
  Started-Progress s s' n q x = record {
    stored = λ i j hi hj. absurd (omega arith);
    rest = λ i j hi hj up. absurd (omega arith);
    erased =
        λ b lo up. memory b ∙ erased_image_inside size s.nvmc.memory b (omega arith) (covered b up);
    outside = λ b o. memory b;
    acked = λ h. absurd (omega arith);
    fresh =
        λ i lo up e. omega (arith, ap (λ o. o.last_chunk_acked) x.ota, q.acked, e, up, fits.count);
    base_addr = x.base_addr ∙ q.base_addr;
    chunk_count = ap (λ o. o.chunk_count) x.ota ∙ q.chunk_count;
    busy = λ _. x.status ∙ q.status;
    done = λ h _. absurd (omega arith);
  }
    where
      size : ℕ
      size = s.shared.ota.image_size

      memory : (b : ℕ) → s'.nvmc.memory b ≡ erased_image s.shared.ota.image_size s.nvmc.memory b
      memory b = x.memory b ∙ rw q.erase refl

      covered : (b : ℕ) → b < base_address + m.count * ota_chunk_size → b < image_limit size
      covered b up = omega (arith, image_limit_lem size, q.most)

  update-Complete :
      (s : AppState L)
      → 0 < m.count
      → IsAsked m s
      → Returns
          (Complete m s)
          (handle_ota_start store answer s >>= transfer store answer m repeats 0 m.count)
  update-Complete s n q =
      Returns-map (handle_ota_start store answer s >>= transfer store answer m repeats 0 m.count)
        (Returns->>= (Started s)
          (Progress m (erased_image s.shared.ota.image_size s.nvmc.memory) m.count)
          (handle_ota_start store answer s) (transfer store answer m repeats 0 m.count)
          (handle_ota_start-Started c a s q.request q.size)
          (λ s' x.
            transfer_lem c a m fits (erased_image s.shared.ota.image_size s.nvmc.memory) repeats 0
              m.count s' (omega arith) (Started-Progress s s' n q x)))
        (λ s' p. record {
          placed = λ i j hi hj. Progress-placed_word i j p hi hj;
          kept = λ b o.
              p.outside b (past b o)
              ∙ erased_image_outside s.shared.ota.image_size s.nvmc.memory b o;
          status = p.done n refl;
        })
    where
      past :
          (b : ℕ)
          → (b < base_address) ⊎ (image_limit s.shared.ota.image_size ≤ b)
          → (b < base_address) ⊎ (base_address + m.count * ota_chunk_size ≤ b)
      past b (inl o) = inl o
      past b (inr o) = inr (omega (arith, image_limit_lem s.shared.ota.image_size, q.most, o))

  -- An update brings every whole word of every chunk to its place above the bootloader and leaves the
  -- rest of the 128 bytes of each chunk erased, so that the last bytes of a chunk whose size is no
  -- multiple of four are not stored. It changes no word below that place and none past the pages of
  -- the image, and ends ready, however often the sender repeats each chunk. The image is not empty, fits the flash and has no more chunks than its size
  -- calls for; the start was asked for with erasing due and no chunk acknowledged; the controller
  -- behaves as documented, and the network core acknowledges and leaves the update alone.
  pub update_lem :
      (s : AppState L) (i j b : ℕ)
      → 0 < m.count
      → IsAsked m s
      → i < m.count
      → 4 * j < ota_chunk_size
      → (b < base_address) ⊎ (image_limit s.shared.ota.image_size ≤ b)
      → Returns
          (λ s'.
            (s'.nvmc.memory (base_address + i * ota_chunk_size + 4 * j)
              ≡ placed_word (m.sizes i) (m.chunks i) j)
            × (s'.nvmc.memory b ≡ s.nvmc.memory b)
            × (s'.shared.status ≡ ready))
          (handle_ota_start store answer s >>= transfer store answer m repeats 0 m.count)
  update_lem s i j b n q hi hj o =
      Returns-map (handle_ota_start store answer s >>= transfer store answer m repeats 0 m.count)
        (update-Complete s n q) (λ s' x. (x.placed i j hi hj, x.kept b o, x.status))
