-- ===== src/Tz/Maps.antt =====
-- The memory map that device/bootloader/Source/main.c sets up, and what it opens to the user image.
use swarmit.Base.{
  ℕ, zero, suc, ◌+◌, ◌%◌, ◌≤◌, ◌<◌, ◌≡◌, refl, ◌∙◌, Bool, true, false, List, [], ◌∷◌, ◌==◌, ◌&&◌,
  ◌||◌, leb, ltb, if◌then◌else◌, arith, ap,
}
use swarmit.Tz.{
  SpuBits, Spu, configure_regions, tz_configure_ram_secure, tz_configure_ram_non_secure,
  tz_configure_flash_secure, tz_configure_flash_non_secure, tz_configure_periph_non_secure,
  tz_configure_periph_dma_non_secure, assign,
}
use swarmit.Tz.User.{
  Board, user_periphs, open_periphs, secure_pins, setup_ns_user, setup_memory, periph_mutex,
}

configure_regions_lem :
    (start n v : ℕ) (f : ℕ → ℕ) (i : ℕ)
    → start + n ≤ 256
    → configure_regions start n v f i ≡ (if leb start i && ltb i (start + n) then v else f i)
unfolding configure_regions
configure_regions_lem start zero v f i h = ground arith
configure_regions_lem start (suc zero) v f i h = ground arith
configure_regions_lem start (suc (suc n)) v f i h =
    ap (λ z. configure_regions z (suc n) v (assign start v f) i) next_region
    ∙ (configure_regions_lem (start + 1) (suc n) v (assign start v f) i (omega arith))
    ∙ ground arith
  where
    next_region : (start + 1) % 256 ≡ start + 1
    next_region = omega arith

or_left : (x y : Bool) → (x || y) ≡ false → x ≡ false
or_left x y h = ground arith

or_right : (x y : Bool) → (x || y) ≡ false → y ≡ false
or_right x y h = ground arith

abbrev listed : ℕ → List (ℕ × Bool) → Bool
listed id [] = false
listed id ((p, dma) ∷ ps) = p == id || listed id ps

open_periphs_keeps :
    (b : SpuBits) (ps : List (ℕ × Bool)) (s : Spu) (id : ℕ)
    → listed id ps ≡ false
    → (open_periphs b ps s).periph id ≡ s.periph id
unfolding open_periphs tz_configure_periph_non_secure tz_configure_periph_dma_non_secure
open_periphs_keeps b [] s id h = refl
open_periphs_keeps b ((p, true) ∷ ps) s id h =
    open_periphs_keeps b ps
      (tz_configure_periph_dma_non_secure b p (tz_configure_periph_non_secure b p s)) id
      (ground arith)
    ∙ ground arith
open_periphs_keeps b ((p, false) ∷ ps) s id h =
    open_periphs_keeps b ps (tz_configure_periph_non_secure b p s) id (ground arith) ∙ ground arith

-- Opening peripherals leaves the memory as it is.
open_periphs_memory :
    (b : SpuBits) (ps : List (ℕ × Bool)) (s : Spu)
    → ((open_periphs b ps s).ram_region ≡ s.ram_region)
      × ((open_periphs b ps s).flash_region ≡ s.flash_region)
unfolding open_periphs tz_configure_periph_non_secure tz_configure_periph_dma_non_secure
open_periphs_memory b [] s = (refl, refl)
open_periphs_memory b ((p, true) ∷ ps) s =
    open_periphs_memory b ps
      (tz_configure_periph_dma_non_secure b p (tz_configure_periph_non_secure b p s))
open_periphs_memory b ((p, false) ∷ ps) s =
    open_periphs_memory b ps (tz_configure_periph_non_secure b p s)

secure_pins_keeps :
    (b : SpuBits) (board : Board) (s : Spu)
    → ((secure_pins b board s).ram_region ≡ s.ram_region)
      × ((secure_pins b board s).flash_region ≡ s.flash_region)
      × ((secure_pins b board s).periph ≡ s.periph)
unfolding secure_pins
secure_pins_keeps b board s = ground arith

-- The first four flash regions are secure once the memory map is set.
pub setup_memory-flash :
    (b : SpuBits) (s : Spu) (i : ℕ) → i < 4 → (setup_memory b s).flash_region i ≡ b.flash_secure
unfolding setup_memory tz_configure_ram_non_secure tz_configure_flash_secure
    tz_configure_flash_non_secure tz_configure_periph_non_secure
setup_memory-flash b s i h =
    configure_regions_lem 4 60 b.flash_non_secure
      (configure_regions 0 4 b.flash_secure s.flash_region) i (omega arith)
    ∙ rw (configure_regions_lem 0 4 b.flash_secure s.flash_region i (omega arith)) (ground arith)

module _ (b : SpuBits) (board : Board) (s : Spu) where
  -- What the SPU holds when the core jumps to the user image.
  abbrev pub user_spu : Spu
  user_spu = setup_ns_user b board (setup_memory b s)

  opened : Spu
  opened =
      record (tz_configure_ram_non_secure b 4 48
        (tz_configure_ram_secure b 0 3 (setup_memory b s))) { nsc_region = 3; nsc_size = 8 }

  -- The user image runs with the RAM regions 0 to 2 secure and 3 to 51 open to it; the other ones
  -- are as they were.
  pub user_spu-ram :
      (i : ℕ)
      → user_spu.ram_region i
        ≡ (if ltb i 3 then b.ram_secure else if ltb i 52 then b.ram_non_secure else s.ram_region i)
  unfolding setup_ns_user setup_memory tz_configure_ram_secure tz_configure_ram_non_secure
      tz_configure_flash_secure tz_configure_flash_non_secure tz_configure_periph_non_secure opened
  user_spu-ram i =
      ap (λ g. g i) (secure_pins_keeps b board (open_periphs b user_periphs opened)).0
      ∙ ap (λ g. g i) (open_periphs_memory b user_periphs opened).0
      ∙ configure_regions_lem 4 48 b.ram_non_secure
          (configure_regions 0 3 b.ram_secure (configure_regions 3 1 b.ram_non_secure s.ram_region))
          i (omega arith)
      ∙ rw
          (
            configure_regions_lem 0 3 b.ram_secure
                (configure_regions 3 1 b.ram_non_secure s.ram_region) i (omega arith),
            configure_regions_lem 3 1 b.ram_non_secure s.ram_region i (omega arith),
          )
          (ground arith)

  -- The user image runs with the flash regions 0 to 3 secure and 4 to 63 open to it; there are no
  -- other ones.
  pub user_spu-flash :
      (i : ℕ)
      → i < 64
      → user_spu.flash_region i ≡ (if ltb i 4 then b.flash_secure else b.flash_non_secure)
  unfolding setup_ns_user setup_memory tz_configure_ram_secure tz_configure_ram_non_secure
      tz_configure_flash_secure tz_configure_flash_non_secure tz_configure_periph_non_secure opened
  user_spu-flash i h =
      ap (λ g. g i) (secure_pins_keeps b board (open_periphs b user_periphs opened)).1
      ∙ ap (λ g. g i) (open_periphs_memory b user_periphs opened).1
      ∙ configure_regions_lem 4 60 b.flash_non_secure
          (configure_regions 0 4 b.flash_secure s.flash_region) i (omega arith)
      ∙ rw (configure_regions_lem 0 4 b.flash_secure s.flash_region i (omega arith)) (ground arith)

  -- A peripheral that is neither the mutex nor in the list of the source keeps its permissions.
  pub user_spu-periph :
      (id : ℕ)
      → (id == periph_mutex || listed id user_periphs) ≡ false
      → user_spu.periph id ≡ s.periph id
  unfolding setup_ns_user setup_memory tz_configure_ram_secure tz_configure_ram_non_secure
      tz_configure_flash_secure tz_configure_flash_non_secure tz_configure_periph_non_secure opened
  user_spu-periph id h =
      ap (λ g. g id) (secure_pins_keeps b board (open_periphs b user_periphs opened)).2
      ∙ open_periphs_keeps b user_periphs opened id
          (or_right (id == periph_mutex) (listed id user_periphs) h)
      ∙ simp (or_left (id == periph_mutex) (listed id user_periphs) h) refl
