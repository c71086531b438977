-- ===== src/Single/Transfer.antt =====
-- The chunks of an update of device/bootloader-single-core/Source/main.c, next to those of
-- device/bootloader/Source/main.c.
use swarmit.Base.{
  ℕ, zero, suc, ◌+◌, refl, ap, true, false, List, [], Outcome, next, stopped, fault, ◌>>=◌, Returns,
}
use swarmit.Shared.{IpcOtaData, req_none}
use swarmit.Nvmc.{Store}
use swarmit.App.{NetCore, IsNetCore, AppState}
use swarmit.App.Image.{Image, Fits}
use swarmit.App.Image
use swarmit.Single.{SingleState}
use swarmit.Single.Loop.{handle_ota_chunk}
use swarmit.Single.Refine.{Same, Both, Both->>=, chunk-Same}

-- A chunk has come, with its size and bytes in the buffer.
abbrev pub arrive : ℕ → ℕ → List ℕ → SingleState → SingleState
arrive k size chunk s = record s {
  ota_chunk_request = true;
  vars = record s.vars {
    ota = record s.vars.ota { chunk_index = k; chunk_size = size; chunk = chunk };
  };
}

module _ (store : Store) (m : Image) where
  unfoldable pub deliver : ℕ → SingleState → Outcome SingleState
  unfolding handle_ota_chunk
  deliver k s = handle_ota_chunk store true (arrive k (m.sizes k) (m.chunks k) s)

  -- The chunk `k` comes again, some number of times.
  unfoldable pub again : ℕ → ℕ → SingleState → Outcome SingleState
  unfolding deliver
  again k zero s = next s
  again k (suc r) s = deliver k s >>= again k r

  -- The chunks from `k` on, `n` of them, each as often as the sender repeats it.
  unfoldable pub transfer : (ℕ → ℕ) → ℕ → ℕ → SingleState → Outcome SingleState
  unfolding again
  transfer repeats k zero s = next s
  transfer repeats k (suc n) s =
      (deliver k s >>= again k (repeats k)) >>= transfer repeats (k + 1) n

-- The state of a bootloader at the same place of its update.
abbrev pub view : SingleState → AppState Unit
view s = record {
  notification_buffer = s.notification_buffer;
  base_addr = s.base_addr;
  ota_start_request = s.ota_start_request;
  ota_require_erase = s.ota_require_erase;
  ota_chunk_request = s.ota_chunk_request;
  lh2_calibration_ready = false;
  lh2_capture_request = false;
  lh2_capturing = false;
  start_application = false;
  system_reset_requested = false;
  position_update = false;
  battery_update = s.battery_update;
  boot_intent = 0;
  localization = tt;
  shared = record {
    net_ready = true;
    net_ack = false;
    req = req_none;
    status = s.vars.status;
    battery_level = s.vars.battery_level;
    device_type = s.vars.device_type;
    log = s.vars.log;
    rng = 0;
    ota = s.vars.ota;
    target_position = record { x = 0; y = 0 };
    current_position = record { x = 0; y = 0 };
    tx_pdu = record { len = 0; buffer = [] };
    rx_pdu = record { len = 0; buffer = [] };
    lh2_calibration = record { homography_count = 0; homographies = [] };
  };
  nvmc = s.nvmc;
  effects = [];
}

pub view-Same : (s : SingleState) → Same s (view s)
view-Same s = record {
  base_addr = refl;
  ota_start_request = refl;
  ota_require_erase = refl;
  ota_chunk_request = refl;
  ota = refl;
  status = refl;
  nvmc = refl;
}

-- A network core that acknowledges, to compare with.
abbrev pub answer : NetCore
answer d = record d { net_ack = true }

pub answer-IsNetCore : IsNetCore answer
answer-IsNetCore = record { acks = λ d. refl; keeps_ota = λ d. refl; keeps_status = λ d. refl }

pub Both-Returns :
    (P : AppState Unit → Type 0) (Q : SingleState → Type 0) (o : Outcome SingleState)
    (w : Outcome (AppState Unit))
    → Both o w
    → Returns P w
    → ((s : SingleState) (a : AppState Unit) → Same s a → P a → Q s)
    → Returns Q o
Both-Returns P Q (next s) (next a) h k f = f s a h k
Both-Returns P Q (next s) (stopped a) h k f = absurd h
Both-Returns P Q (next s) fault h k f = absurd h
Both-Returns P Q (stopped s) w h k f = h
Both-Returns P Q fault w h k f = h

module _ (store : Store) (m : Image) where
  deliver-Same :
      (k : ℕ) (s : SingleState) (a : AppState Unit)
      → Same s a
      → Both (deliver store m k s) (Image.deliver store answer m k a)
  unfolding deliver Image.deliver
  deliver-Same k s a q =
      chunk-Same answer-IsNetCore store (arrive k (m.sizes k) (m.chunks k) s)
        (Image.arrive k (m.sizes k) (m.chunks k) a)
        (record {
          base_addr = q.base_addr;
          ota_start_request = q.ota_start_request;
          ota_require_erase = q.ota_require_erase;
          ota_chunk_request = refl;
          ota =
              ap
                (λ (o : IpcOtaData). record o {
                  chunk_index = k;
                  chunk_size = m.sizes k;
                  chunk = m.chunks k;
                })
                q.ota;
          status = q.status;
          nvmc = q.nvmc;
        })

  again-Same :
      (k n : ℕ) (s : SingleState) (a : AppState Unit)
      → Same s a
      → Both (again store m k n s) (Image.again store answer m k n a)
  unfolding again Image.again
  again-Same k zero s a q = q
  again-Same k (suc n) s a q =
      Both->>= (deliver store m k s) (again store m k n) (Image.deliver store answer m k a)
        (Image.again store answer m k n) (deliver-Same k s a q)
        (λ s' a' q'. again-Same k n s' a' q')

  pub transfer-Same :
      (repeats : ℕ → ℕ) (k n : ℕ) (s : SingleState) (a : AppState Unit)
      → Same s a
      → Both (transfer store m repeats k n s) (Image.transfer store answer m repeats k n a)
  unfolding transfer Image.transfer
  transfer-Same repeats k zero s a q = q
  transfer-Same repeats k (suc n) s a q =
      Both->>= (deliver store m k s >>= again store m k (repeats k))
        (transfer store m repeats (k + 1) n)
        (Image.deliver store answer m k a >>= Image.again store answer m k (repeats k))
        (Image.transfer store answer m repeats (k + 1) n)
        (Both->>= (deliver store m k s) (again store m k (repeats k))
          (Image.deliver store answer m k a) (Image.again store answer m k (repeats k))
          (deliver-Same k s a q) (λ s' a' q'. again-Same k (repeats k) s' a' q'))
        (λ s' a' q'. transfer-Same repeats (k + 1) n s' a' q')
