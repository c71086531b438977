-- ===== src/Wires.antt =====
-- The IPC peripherals of the two cores, as `main` of device/bootloader/Source/main.c and of
-- device/network_core/Source/main.c sets them, and what else the first one sets before its loop.
pub mod Delivery
use Prim.Native.Nat.{bit_and, bit_or}
use swarmit.Base.{ℕ, ◌^◌, Bool, true, false, List, [], ◌∷◌, Option, none, some, ◌==◌, if◌then◌else◌}
use swarmit.Tz.{assign}
use swarmit.Shared.{
  chan_req, chan_radio_rx, chan_application_start, chan_application_stop, chan_soc_reset,
  chan_log_event, chan_ota_start, chan_ota_chunk, chan_calibration_data, chan_lh2_capture,
}

-- The registers of one core's peripheral. `publish e` is the channel of the DPPI that event `e`
-- publishes to, if that is enabled.
pub record Ipc : Type 0 where
  pub inten : ℕ
  pub send_cnf : ℕ → ℕ
  pub receive_cnf : ℕ → ℕ
  pub publish : ℕ → Option ℕ

-- The peripheral after a reset of the chip.
abbrev pub reset_ipc : Ipc
reset_ipc = record { inten = 0; send_cnf = λ t. 0; receive_cnf = λ e. 0; publish = λ e. none }

abbrev set_inten : ℕ → Ipc → Ipc
set_inten mask i = record i { inten = bit_or i.inten mask }

abbrev send_on : ℕ → Ipc → Ipc
send_on c i = record i { send_cnf = assign c (2 ^ c) i.send_cnf }

abbrev receive_on : ℕ → Ipc → Ipc
receive_on c i = record i { receive_cnf = assign c (2 ^ c) i.receive_cnf }

-- INTENSET and the channels, in the order of the source.
unfoldable pub configure_net_ipc : Ipc → Ipc
configure_net_ipc i = receive_on chan_log_event (
    receive_on chan_req (
      send_on chan_lh2_capture (
        send_on chan_calibration_data (
          send_on chan_ota_chunk (
            send_on chan_ota_start (
              send_on chan_soc_reset (
                send_on chan_application_stop (
                  send_on chan_application_start (
                    send_on chan_radio_rx
                      (set_inten (bit_or (2 ^ chan_req) (2 ^ chan_log_event)) i))))))))))

unfoldable pub configure_app_ipc : Ipc → Ipc
configure_app_ipc i = receive_on chan_lh2_capture (
    receive_on chan_calibration_data (
      receive_on chan_ota_chunk (
        receive_on chan_ota_start (
          receive_on chan_soc_reset (
            receive_on chan_application_stop (
              receive_on chan_application_start (
                receive_on chan_radio_rx
                  (send_on chan_log_event (send_on chan_req (set_inten app_mask i))))))))))
  where
    app_mask : ℕ
    app_mask = bit_or (2 ^ chan_radio_rx) (
        bit_or (2 ^ chan_ota_start) (
          bit_or (2 ^ chan_ota_chunk) (
            bit_or (2 ^ chan_application_start) (
              bit_or (2 ^ chan_soc_reset)
                (bit_or (2 ^ chan_calibration_data) (2 ^ chan_lh2_capture))))))

-- What the interrupt controller, the DPPI and the second watchdog are set to.
pub record Wires : Type 0 where
  pub ipc : Ipc
  pub ipc_irq_enabled : Bool
  pub ipc_irq_pending : Bool
  pub ipc_irq_priority : ℕ
  -- the channel of the DPPI that starts the watchdog
  pub watchdog1_subscribe : Option ℕ
  -- CHEN of the DPPI
  pub dppi_enabled : ℕ

-- The block of `main` from INTENSET to CHENSET.
unfoldable pub configure_channels : Wires → Wires
unfolding configure_app_ipc
configure_channels w = record w {
  ipc = published (configure_app_ipc w.ipc);
  ipc_irq_enabled = true;
  ipc_irq_pending = false;
  ipc_irq_priority = 1;
  watchdog1_subscribe = some 0;
  dppi_enabled = bit_or w.dppi_enabled 1;
}
  where
    published : Ipc → Ipc
    published i = record i {
      publish = λ e. if e == chan_application_stop then some 0 else i.publish e;
    }

abbrev pub reset_wires : Wires
reset_wires = record {
  ipc = reset_ipc;
  ipc_irq_enabled = false;
  ipc_irq_pending = false;
  ipc_irq_priority = 0;
  watchdog1_subscribe = none;
  dppi_enabled = 0;
}

-- The same of the network core, and the period of the timer that asks for a status.
pub record NetWires : Type 0 where
  pub ipc : Ipc
  pub ipc_irq_enabled : Bool
  pub ipc_irq_pending : Bool
  pub ipc_irq_priority : ℕ
  pub status_period_us : Option ℕ

-- `main` from INTENSET to the timer.
unfoldable pub configure_net : NetWires → NetWires
unfolding configure_net_ipc
configure_net w = record w {
  ipc = configure_net_ipc w.ipc;
  ipc_irq_enabled = true;
  ipc_irq_pending = false;
  ipc_irq_priority = 1;
  status_period_us = some 1_000_000;
}
