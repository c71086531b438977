-- ===== src/App/Erase.antt =====
-- What the start of an update erases (device/bootloader/Source/main.c).
use swarmit.Base.{
  ℕ, zero, suc, ◌+◌, ◌*◌, ◌≤◌, ◌<◌, ◌≡◌, ◌⊎◌, inl, inr, refl, ◌∙◌, ap, true, false, List, [], ◌∷◌,
  arith, dec_lt, Returns, if◌then◌else◌, leb, ltb, ◌&&◌, Bool-cases, Returns-map, if-elim, le→leb,
  lt→ltb, ◌^◌, ◌%◌, ◌/◌,
}
use swarmit.Protocol.{msg_ota_start_ack}
use swarmit.Shared.{chan_req}
use swarmit.Nvmc.{Store, Flash, Nvmc, app_geometry, erased_word, nvmc_page_erase}
use swarmit.Nvmc.Laws.{IsController}
use swarmit.App.{NetCore, IsNetCore, AppState, task_send, node_tx}
use swarmit.App.Ota.{base_address, pages_count, erase_pages, erase_image, notify, handle_ota_start}

-- The end of the pages that hold an image of `size` bytes: the first page boundary above the
-- bootloader that is not below the end of the image.
abbrev pub image_limit : ℕ → ℕ
image_limit size = base_address + (size + 4095) / 4096 * 4096

pub image_limit_lem : (size : ℕ) → base_address + size ≤ image_limit size
image_limit_lem size = omega arith

-- The page count of the source reaches it.
pages_count_lem : (size : ℕ) → base_address + 4096 * pages_count size ≡ image_limit size
pages_count_lem size = ground arith

module _ {store : Store} (c : IsController app_geometry store) where
  erase_pages-keeps :
      (page k : ℕ) (n : Nvmc) (b : ℕ)
      → base_address + 4096 * (page + k) ≤ 2 ^ 32
      → (b < base_address + 4096 * page) ⊎ (base_address + 4096 * (page + k) ≤ b)
      → (erase_pages store page k n).memory b ≡ n.memory b
  unfolding erase_pages
  erase_pages-keeps page zero n b w h = refl
  erase_pages-keeps page (suc k) n b w h =
      erase_pages-keeps (page + 1) k (nvmc_page_erase store app_geometry (page + 16) n) b
        (omega arith) (ground arith)
      ∙ (unfold nvmc_page_erase in
          c.een_keeps ((0 + (page + 16) * 4096) % 2 ^ 32) erased_word b n.memory (ground arith))

  erase_pages-erases :
      (page k : ℕ) (n : Nvmc) (b : ℕ)
      → base_address + 4096 * (page + k) ≤ 2 ^ 32
      → base_address + 4096 * page ≤ b
      → b < base_address + 4096 * (page + k)
      → (erase_pages store page k n).memory b ≡ erased_word
  unfolding erase_pages
  erase_pages-erases page zero n b w lo up = absurd (omega arith)
  erase_pages-erases page (suc k) n b w lo up = elim (dec_lt b (base_address + 4096 * (page + 1))) [
    | yes p ↦
        erase_pages-keeps (page + 1) k (nvmc_page_erase store app_geometry (page + 16) n) b
          (omega arith) (inl p)
        ∙ (unfold nvmc_page_erase in
            c.een_erases ((0 + (page + 16) * 4096) % 2 ^ 32) erased_word b n.memory (omega arith)
              (omega arith))
    | no p ↦
        erase_pages-erases (page + 1) k (nvmc_page_erase store app_geometry (page + 16) n) b
          (omega arith) (omega arith) (omega arith)
  ]

-- A pdu was sent from `s`, and all else that matters to an update is as it was.
pub record Sent {L : Type 0} (packet : List ℕ) (s s' : AppState L) : Type 0 where
  pub effects : s'.effects ≡ task_send chan_req ∷ node_tx packet ∷ s.effects
  pub nvmc : s'.nvmc ≡ s.nvmc
  pub base_addr : s'.base_addr ≡ s.base_addr
  pub ota_require_erase : s'.ota_require_erase ≡ s.ota_require_erase
  pub ota_start_request : s'.ota_start_request ≡ s.ota_start_request
  pub ota_chunk_request : s'.ota_chunk_request ≡ s.ota_chunk_request
  pub ota : s'.shared.ota ≡ s.shared.ota
  pub status : s'.shared.status ≡ s.shared.status

module _ {L : Type 0} {answer : NetCore} (a : IsNetCore answer) where
  pub notify-Sent :
      (packet : List ℕ) (s : AppState L) → Returns (Sent packet s) (notify answer packet s)
  unfolding notify
  notify-Sent packet s = grind (arith, a.acks, a.keeps_ota, a.keeps_status)

-- The flash once the pages of an image of `size` bytes are erased.
abbrev pub erased_image : ℕ → Flash → Flash
erased_image size f b = if leb base_address b && ltb b (image_limit size) then erased_word else f b

pub erased_image_inside :
    (size : ℕ) (f : Flash) (b : ℕ)
    → base_address ≤ b
    → b < image_limit size
    → erased_image size f b ≡ erased_word
erased_image_inside size f b lo up =
    rw (le→leb base_address b lo, lt→ltb b (image_limit size) up) refl

pub erased_image_outside :
    (size : ℕ) (f : Flash) (b : ℕ)
    → (b < base_address) ⊎ (image_limit size ≤ b)
    → erased_image size f b ≡ f b
erased_image_outside size f b o = ground arith

-- What an update starts with.
pub record Started {L : Type 0} (s s' : AppState L) : Type 0 where
  pub effects : s'.effects ≡ task_send chan_req ∷ node_tx (msg_ota_start_ack ∷ []) ∷ s.effects
  pub memory :
      (b : ℕ)
      → s'.nvmc.memory b ≡ (
          if s.ota_require_erase
          then erased_image s.shared.ota.image_size s.nvmc.memory b
          else s.nvmc.memory b)
  pub base_addr : s'.base_addr ≡ s.base_addr
  pub ota_start_request : s'.ota_start_request ≡ false
  pub ota_require_erase : s'.ota_require_erase ≡ false
  pub ota_chunk_request : s'.ota_chunk_request ≡ s.ota_chunk_request
  pub ota : s'.shared.ota ≡ s.shared.ota
  pub status : s'.shared.status ≡ s.shared.status

module _ {store : Store} (c : IsController app_geometry store) where
  pub erase_pages_lem :
      (size : ℕ) (n : Nvmc) (b : ℕ)
      → size ≤ 0xf0000
      → (erase_pages store 0 (pages_count size) n).memory b ≡ erased_image size n.memory b
  erase_pages_lem size n b w = elim (dec_lt b base_address) [
    | yes p ↦
        erase_pages-keeps c 0 (pages_count size) n b (omega (arith, pages_count_lem size))
          (inl (omega arith))
        ∙ ground arith
    | no p ↦ elim (dec_lt b (image_limit size)) [
      | yes q ↦
          erase_pages-erases c 0 (pages_count size) n b (omega (arith, pages_count_lem size))
            (omega arith) (omega (arith, pages_count_lem size))
          ∙ ground arith
      | no q ↦
          erase_pages-keeps c 0 (pages_count size) n b (omega (arith, pages_count_lem size))
            (inr (omega (arith, pages_count_lem size)))
          ∙ ground arith
    ]
  ]

  erase_image-memory :
      {L : Type 0} (s : AppState L) (b : ℕ)
      → s.shared.ota.image_size ≤ 0xf0000
      → (erase_image store (record s { ota_start_request = false })).nvmc.memory b ≡ (
          if s.ota_require_erase
          then erased_image s.shared.ota.image_size s.nvmc.memory b
          else s.nvmc.memory b)
  unfolding erase_image
  erase_image-memory s b w = elim (Bool-cases s.ota_require_erase) [
    | inl e ↦ rw e (erase_pages_lem s.shared.ota.image_size s.nvmc b w)
    | inr e ↦ rw e refl
  ]

  module _ {L : Type 0} {answer : NetCore} (a : IsNetCore answer) where
    -- An update that is asked for is always acknowledged. All bytes from the end of the bootloader to
    -- the first page boundary at or past the end of the image, and no others, are erased, unless no
    -- chunk was written since they were. The image fits the flash, the controller behaves as
    -- documented, and the network core acknowledges and leaves the update alone.
    pub handle_ota_start-Started :
        (s : AppState L)
        → s.ota_start_request ≡ true
        → s.shared.ota.image_size ≤ 0xf0000
        → Returns (Started s) (handle_ota_start store answer s)
    unfolding handle_ota_start erase_image
    handle_ota_start-Started s e w =
        if-elim (Returns (Started s)) s.ota_start_request
          (λ _.
            Returns-map (notify answer (msg_ota_start_ack ∷ []) s0)
              (notify-Sent a (msg_ota_start_ack ∷ []) s0) started)
          (λ q. absurd (ground arith))
      where
        s0 : AppState L
        s0 = erase_image store (record s { ota_start_request = false })

        started : (s' : AppState L) → Sent (msg_ota_start_ack ∷ []) s0 s' → Started s s'
        started s' x = record {
          effects = x.effects ∙ ground arith;
          memory = λ b. ap (λ n. n.memory b) x.nvmc ∙ erase_image-memory s b w;
          base_addr = x.base_addr ∙ ground arith;
          ota_start_request = x.ota_start_request ∙ ground arith;
          ota_require_erase = x.ota_require_erase ∙ ground arith;
          ota_chunk_request = x.ota_chunk_request ∙ ground arith;
          ota = x.ota ∙ ground arith;
          status = x.status ∙ ground arith;
        }
