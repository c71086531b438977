-- ===== src/Gateway.antt =====
-- The functions that the user image may call in the secure bootloader,
-- device/bootloader/Source/cmse_implib.c. Pointers are addresses of a byte memory.
pub mod Checks
use swarmit.Base.{
  ℕ, zero, suc, ◌+◌, Bool, true, false, not, ◌&&◌, ◌||◌, List, [], ◌∷◌, ◌++◌, ltb, leb, ◌!=◌,
  length, take, write_at, Option, none, some, if◌then◌else◌, Outcome, next, stopped, fault, ◌>>=◌,
}
use swarmit.Shared.{IpcSharedData, IpcLogData, Position2d, chan_log_event, log_data_size}
use swarmit.Localization.{Localizer}
use swarmit.App.{NetCore, AppState, send_task}
use swarmit.App.Mari.{mari_node_tx, rng_init, rng_read}

-- The byte at each address.
abbrev pub Memory : Type 0
Memory = ℕ → ℕ

unfoldable pub load_bytes : Memory → ℕ → ℕ → List ℕ
load_bytes m addr zero = []
load_bytes m addr (suc n) = m addr ∷ load_bytes m (addr + 1) n

-- The state of the bootloader with the variables of this file, the calls into the user image and
-- the reloads of the watchdog.
pub record GatewayState (L : Type 0) : Type 0 where
  pub app : AppState L
  pub tx_data_buffer : List ℕ
  pub localization_data_available : Bool
  pub reloads : ℕ
  -- the pdus given to the callback of the user image, the last one first
  pub received : List (List ℕ)

-- PACKET_DATA
abbrev pub packet_data : ℕ
packet_data = 16

-- The secure addresses, by the test of `swarmit_log_data` on the first byte.
abbrev pub in_secure_space : ℕ → Bool
in_secure_space addr = ltb 0x2000_0000 addr && ltb addr 0x2000_8000 || ltb 0 addr && ltb addr 0xff00

-- The channels of saadc.h that `swarmit_saadc_read` compares with.
pub record SaadcInputs : Type 0 where
  pub vddh : ℕ
  pub vdd : ℕ
  pub ain0 : ℕ

abbrev pub is_channel : SaadcInputs → ℕ → Bool
is_channel i channel =
    not (channel != i.vddh && not (leb channel i.vdd) && not (leb i.ain0 channel))

module _ {L : Type 0} where
  abbrev pub with_app : GatewayState L → Outcome (AppState L) → Outcome (GatewayState L)
  with_app g (next a) = next (record g { app = a })
  with_app g (stopped a) = stopped (record g { app = a })
  with_app g fault = fault

  abbrev pub set_shared : IpcSharedData → GatewayState L → GatewayState L
  set_shared d g = record g { app = record g.app { shared = d } }

  -- `level` is what `battery_level_read` returns.
  unfoldable pub swarmit_keep_alive : Localizer L → ℕ → GatewayState L → GatewayState L
  swarmit_keep_alive loc level g =
      if g.localization_data_available then publish found.0 (moved found.1) else g'
    where
      g' : GatewayState L
      g' =
          set_shared (record g.app.shared { battery_level = level })
            (record g { reloads = g.reloads + 1 })

      found : Option Position2d × L
      found = loc.get_position g.app.localization

      moved : L → GatewayState L
      moved l = record g' { app = record g'.app { localization = l } }

      publish : Option Position2d → GatewayState L → GatewayState L
      publish q h = elim q [
        | none ↦ h
        | some p ↦ set_shared (record h.app.shared { current_position = p }) h
      ]

  -- The source of the copy is `&packet`: `packet_slot` is the address of that variable on the
  -- secure stack, and the pointer itself is not followed. The copy starts at the third byte of a
  -- buffer of 255.
  unfoldable pub swarmit_send_data_packet :
      NetCore → Memory → ℕ → ℕ → ℕ → GatewayState L → Outcome (GatewayState L)
  unfolding mari_node_tx load_bytes
  swarmit_send_data_packet answer m packet_slot packet size g =
      if ltb 255 (2 + size)
      then fault
      else with_app g' (mari_node_tx answer (take (2 + size) buffer) g'.app)
    where
      buffer : List ℕ
      buffer = write_at g.tx_data_buffer 0 (packet_data ∷ size ∷ load_bytes m packet_slot size)

      g' : GatewayState L
      g' = record g { tx_data_buffer = buffer }

  unfoldable pub swarmit_send_raw_data :
      NetCore → Memory → ℕ → ℕ → GatewayState L → Outcome (GatewayState L)
  unfolding mari_node_tx load_bytes
  swarmit_send_raw_data answer m packet size g =
      with_app g (mari_node_tx answer (load_bytes m packet size) g.app)

  -- `event` is the event register of the channel, which is cleared.
  unfoldable pub swarmit_ipc_isr : Bool → GatewayState L → GatewayState L
  swarmit_ipc_isr event g =
      if event
      then record g {
        received = take g.app.shared.rx_pdu.len g.app.shared.rx_pdu.buffer ∷ g.received;
      }
      else g

  unfoldable pub swarmit_init_rng : NetCore → GatewayState L → Outcome (GatewayState L)
  unfolding rng_init
  swarmit_init_rng answer g = with_app g (rng_init answer g.app)

  -- The value read goes to `value`, wherever that points.
  unfoldable pub swarmit_read_rng : NetCore → GatewayState L → Outcome (GatewayState L)
  unfolding rng_read
  swarmit_read_rng answer g = with_app g (rng_read answer g.app)

  unfoldable pub swarmit_log_data : Memory → ℕ → ℕ → GatewayState L → GatewayState L
  unfolding load_bytes
  swarmit_log_data m addr size g =
      if ltb log_data_size size then g else if in_secure_space addr then g else record g {
        app = send_task chan_log_event (record g.app {
          shared = record g.app.shared {
            log = record {
              len = size;
              bytes = write_at g.app.shared.log.bytes 0 (load_bytes m addr size);
            };
          };
        });
      }

  -- What the two getters store at the pointer that they are given.
  abbrev pub swarmit_get_battery_level : GatewayState L → ℕ
  swarmit_get_battery_level g = g.app.shared.battery_level

  abbrev pub swarmit_localization_get_position : GatewayState L → Position2d
  swarmit_localization_get_position g = g.app.shared.current_position

  -- `ended` is the event register of the SPI, which is cleared; `received` is what the driver has
  -- made of the data in `db_lh2_handle_isr`.
  unfoldable pub swarmit_localization_handle_isr :
      Localizer L → (L → L) → Bool → GatewayState L → GatewayState L
  swarmit_localization_handle_isr loc handle_isr ended g =
      if ended
      then record g {
        localization_data_available = processed.0;
        app = record g.app { localization = processed.1 };
      }
      else g
    where
      processed : Bool × L
      processed = loc.process_data (handle_isr g.app.localization)

-- The channel is read, or nothing is done.
unfoldable pub swarmit_saadc_read : SaadcInputs → (ℕ → ℕ) → ℕ → Option ℕ
swarmit_saadc_read inputs read channel =
    if is_channel inputs channel then some (read channel) else none
