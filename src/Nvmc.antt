-- ===== src/Nvmc.antt =====
-- The flash driver: nvmc.c of the three programs under device/, which differ in the addresses of
-- their pages only. What a store does to the flash is the controller's business: it is a parameter.
pub mod Laws
use swarmit.Base.{ℕ, zero, suc, ◌+◌, ◌*◌, ◌/◌, ◌%◌, ◌^◌}

-- NVMC_CONFIG_WEN: read only, write enabled, erase enabled
pub data NvmcMode : Type 0 where
  ren wen een : NvmcMode

-- The word at each address.
abbrev pub Flash : Type 0
Flash = ℕ → ℕ

-- What a store of a word does to the flash, in a mode, at an address.
abbrev pub Store : Type 0
Store = NvmcMode → ℕ → ℕ → Flash → Flash

pub record Nvmc : Type 0 where
  pub config : NvmcMode
  pub memory : Flash

abbrev pub erased_word : ℕ
erased_word = 0xffff_ffff

-- FLASH_PAGE_SIZE and FLASH_OFFSET of an nvmc.h
pub record Geometry : Type 0 where
  pub page_size : ℕ
  pub offset : ℕ

abbrev pub app_geometry : Geometry
app_geometry = record { page_size = 4096; offset = 0 }

abbrev pub net_geometry : Geometry
net_geometry = record { page_size = 2048; offset = 0x0100_0000 }

module _ (store : Store) where
  -- The loop of `nvmc_write` from word `i` on, with its rounds left. Addresses are `uint32_t`.
  unfoldable pub write_from : ℕ → (ℕ → ℕ) → ℕ → ℕ → Flash → Flash
  write_from addr data_addr i zero f = f
  write_from addr data_addr i (suc n) f =
      write_from addr data_addr (i + 1) n (store wen ((addr + 4 * i) % 2 ^ 32) (data_addr i) f)

  -- The controller is left in erase mode.
  unfoldable pub nvmc_page_erase : Geometry → ℕ → Nvmc → Nvmc
  nvmc_page_erase g page n = record n {
    config = een;
    memory = store een ((g.offset + page * g.page_size) % 2 ^ 32) erased_word n.memory;
  }

  -- `data_addr i` is the word `data_addr[i]`; of `len` bytes, `len >> 2` words are written.
  unfoldable pub nvmc_write : ℕ → (ℕ → ℕ) → ℕ → Nvmc → Nvmc
  nvmc_write addr data_addr len n = record n {
    config = ren;
    memory = write_from addr data_addr 0 (len / 4) n.memory;
  }
