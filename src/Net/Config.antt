-- ===== src/Net/Config.antt =====
-- The configuration page of device/network_core/Source/main.c: loading it at boot, and committing
-- a new calibration. The page is read and written by words.
use swarmit.Base.{
  ℕ, zero, suc, Bool, true, List, [], ◌∷◌, ◌+◌, ◌*◌, ◌%◌, ◌&&◌, get_or, set, leb, ltb, ◌==◌,
  if◌then◌else◌, Outcome, stopped,
}
use swarmit.Shared.{lh2_basestation_count_max, homographies_length, chan_soc_reset}
use swarmit.Nvmc.{Store, Flash, net_geometry, nvmc_page_erase, nvmc_write}
use swarmit.Net.{SwarmitConfig, NetState, send_task}

abbrev pub net_config_start_address : ℕ
net_config_start_address = 0x0103_f800

abbrev pub net_config_page : ℕ
net_config_page = 127

abbrev pub config_magic_value : ℕ
config_magic_value = 0x5753_524D

abbrev pub default_net_id : ℕ
default_net_id = 0xA000

-- sizeof(swarmit_config_t)
abbrev pub config_size : ℕ
config_size = 592

-- The struct as the words that it takes in memory.
unfoldable pub config_words : SwarmitConfig → List ℕ
config_words c = c.magic ∷ c.has_net_id ∷ c.net_id ∷ c.homography_count ∷ c.homographies

-- `n` consecutive words of the memory.
unfoldable pub load_words : Flash → ℕ → ℕ → List ℕ
load_words f addr zero = []
load_words f addr (suc n) = f addr ∷ load_words f (addr + 4) n

-- The struct at an address of the memory.
unfoldable pub load_struct : Flash → ℕ → SwarmitConfig
unfolding load_words
load_struct f addr = record {
  magic = f addr;
  has_net_id = f (addr + 4);
  net_id = f (addr + 8);
  homography_count = f (addr + 12);
  homographies = load_words f (addr + 16) homographies_length;
}

-- The three loops of `_load_config`: one word, a row, a matrix, and the matrices from `idx` on.
-- The last argument of each but the first counts the rounds left.
module _ (src : List ℕ) where
  abbrev pub copy_word : ℕ → ℕ → ℕ → List ℕ → List ℕ
  copy_word idx row col dst =
      set dst (9 * idx + 3 * row + col) (get_or src (9 * idx + 3 * row + col) 0)

  unfoldable pub copy_cols : ℕ → ℕ → ℕ → ℕ → List ℕ → List ℕ
  copy_cols idx row col zero dst = dst
  copy_cols idx row col (suc n) dst = copy_cols idx row (col + 1) n (copy_word idx row col dst)

  unfoldable pub copy_rows : ℕ → ℕ → ℕ → List ℕ → List ℕ
  copy_rows idx row zero dst = dst
  copy_rows idx row (suc n) dst = copy_rows idx (row + 1) n (copy_cols idx row 0 3 dst)

  unfoldable pub copy_matrices : ℕ → ℕ → List ℕ → List ℕ
  copy_matrices idx zero dst = dst
  copy_matrices idx (suc n) dst = copy_matrices (idx + 1) n (copy_rows idx 0 3 dst)

-- The test on `homography_count`, after the magic.
abbrev pub has_calibration : SwarmitConfig → Bool
has_calibration c =
    c.magic == config_magic_value
    && ltb 0 c.homography_count
    && leb c.homography_count lh2_basestation_count_max

unfoldable pub load_config : NetState → NetState
load_config s =
    if has_calibration config
    then record s' {
      shared = record s.shared {
        lh2_calibration = record {
          homography_count = config.homography_count;
          homographies =
              copy_matrices config.homographies 0 config.homography_count
                s.shared.lh2_calibration.homographies;
        };
      };
      lh2_calibration_ready = true;
    }
    else s'
  where
    config : SwarmitConfig
    config = load_struct s.nvmc.memory net_config_start_address

    s' : NetState
    s' = record s {
      config = config;
      mari_net_id =
          if config.magic == config_magic_value && config.has_net_id == 1
          then config.net_id % 65536
          else default_net_id;
    }

-- The core then waits for the reset that it asked for.
unfoldable pub commit_config_and_reboot : Store → NetState → Outcome NetState
unfolding nvmc_page_erase nvmc_write config_words
commit_config_and_reboot store s =
    let config = record s.config { magic = config_magic_value } in
    let erased = nvmc_page_erase store net_geometry net_config_page s.nvmc in
    let written =
      nvmc_write store net_config_start_address (λ i. get_or (config_words config) i 0) config_size
        erased in
    stopped (send_task chan_soc_reset (record s { config = config; nvmc = written }))
