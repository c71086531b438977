-- ===== src/Link/Wired.antt =====
-- The tasks of device/network_core/Source/main.c through the wires that both cores set, to the
-- handler of device/bootloader/Source/main.c and to its second watchdog.
use Prim.Native.Nat.{bit_and}
use swarmit.Base.{
  ℕ, zero, suc, ◌^◌, ◌≡◌, refl, ◌∙◌, ap, arith, Bool, true, false, ◌==◌, ◌!=◌, ◌&&◌, ◌||◌, none,
  some, List, [], ◌∷◌,
}
use swarmit.Shared.{
  chan_ota_start, chan_ota_chunk, chan_application_start, chan_application_stop, chan_soc_reset,
  chan_calibration_data, chan_lh2_capture,
}
use swarmit.Net.{Effect, task_send, tx_payload, mari_init, rng_init}
use swarmit.Net.Runs.{send_cnf}
use swarmit.App.Loop.{IpcEvents}
use swarmit.Wires.{Ipc, Wires, reset_wires, configure_channels, configure_app_ipc}
use swarmit.Wires.Delivery.{connected, net_ipc, wired}
use swarmit.Link.{raised, events_of}

-- Whether an event is set by the tasks among these effects.
unfoldable pub received : Ipc → Ipc → ℕ → List Effect → Bool
received a b e [] = false
received a b e (task_send t ∷ es) = connected a b t e || received a b e es
received a b e (_ ∷ es) = received a b e es

abbrev pub interrupting : Ipc → Ipc → ℕ → List Effect → Bool
interrupting a b e es = received a b e es && bit_and b.inten (2 ^ e) != 0

-- The events that the handler finds when it is called, if its interrupt is on.
unfoldable pub interrupts : Ipc → Wires → List Effect → IpcEvents
unfolding received
interrupts a w es = record {
  ota_start = w.ipc_irq_enabled && interrupting a w.ipc chan_ota_start es;
  ota_chunk = w.ipc_irq_enabled && interrupting a w.ipc chan_ota_chunk es;
  application_start = w.ipc_irq_enabled && interrupting a w.ipc chan_application_start es;
  soc_reset = w.ipc_irq_enabled && interrupting a w.ipc chan_soc_reset es;
  calibration_data = w.ipc_irq_enabled && interrupting a w.ipc chan_calibration_data es;
  lh2_capture = w.ipc_irq_enabled && interrupting a w.ipc chan_lh2_capture es;
}

-- Whether an event starts the second watchdog, through the DPPI.
abbrev triggers : Wires → ℕ → Bool
triggers w e = elim (w.ipc.publish e) [
  | none ↦ false
  | some c ↦ elim w.watchdog1_subscribe [
    | none ↦ false
    | some d ↦ c == d && bit_and w.dppi_enabled (2 ^ c) != 0
  ]
]

-- Some event below `n` is set and starts it; the peripheral has 16.
unfoldable pub starts_watchdog1 : Ipc → Wires → ℕ → List Effect → Bool
unfolding received
starts_watchdog1 a w zero es = false
starts_watchdog1 a w (suc n) es = received a w.ipc n es && triggers w n || starts_watchdog1 a w n es

abbrev pub app_wires : Wires
app_wires = configure_channels reset_wires

connected_lem : (t e : ℕ) → connected net_ipc app_wires.ipc t e ≡ (t == e && send_cnf e)
unfolding configure_channels
connected_lem t e = (wired t e).0

or_and : (x p r : Bool) → (x && p || p && r) ≡ (p && (x || r))
or_and x p r = ground arith

received_lem :
    (e : ℕ) (es : List Effect) → received net_ipc app_wires.ipc e es ≡ (send_cnf e && raised e es)
unfolding received raised
received_lem e [] = ground arith
received_lem e (task_send t ∷ es) =
    ap (λ b. b || received net_ipc app_wires.ipc e es) (connected_lem t e)
    ∙ ap (λ b. t == e && send_cnf e || b) (received_lem e es)
    ∙ or_and (t == e) (send_cnf e) (raised e es)
received_lem e (tx_payload b c ∷ es) = received_lem e es
received_lem e (mari_init i ∷ es) = received_lem e es
received_lem e (rng_init ∷ es) = received_lem e es

and_true : (b : Bool) → (b && true) ≡ b
and_true b = ground arith

pub interrupting_lem :
    (e : ℕ) (es : List Effect)
    → (bit_and app_wires.ipc.inten (2 ^ e) != 0) ≡ true
    → send_cnf e ≡ true
    → interrupting net_ipc app_wires.ipc e es ≡ raised e es
interrupting_lem e es h k =
    ap (λ b. received net_ipc app_wires.ipc e es && b) h
    ∙ and_true (received net_ipc app_wires.ipc e es)
    ∙ received_lem e es
    ∙ ap (λ b. b && raised e es) k

watchdog_lem :
    (es : List Effect) → starts_watchdog1 net_ipc app_wires 16 es ≡ raised chan_application_stop es
unfolding starts_watchdog1 configure_channels
watchdog_lem es = ground (arith, received_lem chan_application_stop es)

-- The handler of the bootloader finds the events that the effects of the network core name, no
-- more and no fewer, and its second watchdog starts exactly if a stop was among them.
pub interrupts_lem :
    (es : List Effect)
    → (interrupts net_ipc app_wires es ≡ events_of es)
      × (starts_watchdog1 net_ipc app_wires 16 es ≡ raised chan_application_stop es)
unfolding interrupts configure_channels configure_app_ipc events_of
interrupts_lem es = (
  λ i. record {
    ota_start = interrupting_lem chan_ota_start es refl refl i;
    ota_chunk = interrupting_lem chan_ota_chunk es refl refl i;
    application_start = interrupting_lem chan_application_start es refl refl i;
    soc_reset = interrupting_lem chan_soc_reset es refl refl i;
    calibration_data = interrupting_lem chan_calibration_data es refl refl i;
    lh2_capture = interrupting_lem chan_lh2_capture es refl refl i;
  },
  watchdog_lem es,
)
