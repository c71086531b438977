-- ===== src/Tz.antt =====
-- device/bootloader/Source/tz.c: the security attributes of the SPU. The values written are
-- expressions over the vendor's register constants, and parameters.
pub mod Maps
pub mod User
use Prim.Native.Nat.{bit_or}
use swarmit.Base.{ℕ, zero, suc, ◌+◌, ◌%◌, Bool, ◌==◌, if◌then◌else◌}

-- PERM of a peripheral for non secure access, the bits for non secure DMA, and PERM of a region of
-- flash or RAM with all accesses enabled, secure or not.
pub record SpuBits : Type 0 where
  pub periph_non_secure : ℕ
  pub periph_dma : ℕ
  pub flash_secure : ℕ
  pub flash_non_secure : ℕ
  pub ram_secure : ℕ
  pub ram_non_secure : ℕ

-- The registers of the SPU that the bootloader writes: PERM of each flash region, RAM region,
-- peripheral and GPIO port, and the non secure callable subregion.
pub record Spu : Type 0 where
  pub flash_region : ℕ → ℕ
  pub ram_region : ℕ → ℕ
  pub periph : ℕ → ℕ
  pub gpio_port : ℕ → ℕ
  pub nsc_region : ℕ
  pub nsc_size : ℕ

abbrev pub assign : ℕ → ℕ → (ℕ → ℕ) → ℕ → ℕ
assign i v f j = if j == i then v else f j

-- The loops of `_configure_flash` and `_configure_ram` over the regions, with the rounds left. The
-- counter is a `uint8_t`.
unfoldable pub configure_regions : ℕ → ℕ → ℕ → (ℕ → ℕ) → ℕ → ℕ
configure_regions region zero v f = f
configure_regions region (suc n) v f =
    configure_regions ((region + 1) % 256) n v (assign region v f)

module _ (b : SpuBits) where
  unfoldable pub tz_configure_periph_non_secure : ℕ → Spu → Spu
  tz_configure_periph_non_secure id s = record s { periph = assign id b.periph_non_secure s.periph }

  unfoldable pub tz_configure_periph_dma_non_secure : ℕ → Spu → Spu
  tz_configure_periph_dma_non_secure id s = record s {
    periph = assign id (bit_or (s.periph id) b.periph_dma) s.periph;
  }

  unfoldable pub tz_configure_flash_secure : ℕ → ℕ → Spu → Spu
  unfolding configure_regions
  tz_configure_flash_secure start length s = record s {
    flash_region = configure_regions start length b.flash_secure s.flash_region;
  }

  unfoldable pub tz_configure_flash_non_secure : ℕ → ℕ → Spu → Spu
  unfolding configure_regions
  tz_configure_flash_non_secure start length s = record s {
    flash_region = configure_regions start length b.flash_non_secure s.flash_region;
  }

  unfoldable pub tz_configure_ram_secure : ℕ → ℕ → Spu → Spu
  unfolding configure_regions
  tz_configure_ram_secure start length s = record s {
    ram_region = configure_regions start length b.ram_secure s.ram_region;
  }

  unfoldable pub tz_configure_ram_non_secure : ℕ → ℕ → Spu → Spu
  unfolding configure_regions
  tz_configure_ram_non_secure start length s = record s {
    ram_region = configure_regions start length b.ram_non_secure s.ram_region;
  }
