-- ===== src/Link/Bounds.antt =====
-- Both cores over the structure that they share, device/network_core/Source/main.c and
-- device/bootloader/Source/main.c with the calls of the user image: the copies from and to its
-- arrays, in any order of their steps.
use swarmit.Base.{ℕ, Bool, List, [], ◌∷◌, Outcome, next, stopped, fault, ◌>>=◌}
use swarmit.Nvmc.{Store}
use swarmit.Localization.{Reals, LocalizationData, Basestation, localizer}
use swarmit.Net.{Platform, Inputs, NetState}
use swarmit.Net.Packet.{MrEvent}
use swarmit.Net.Runs.{NetEvent, radio, timer, ipc, round, step}
use swarmit.Net.Packet.{ipc_irq_handler}
use swarmit.Net.Bounds.{IsWithin, IsFair}
use swarmit.App.{AppState}
use swarmit.App.Loop.{main_loop}
use swarmit.App.Loop
use swarmit.Gateway.{Memory, GatewayState, swarmit_log_data, swarmit_keep_alive}
use swarmit.Link.Send.{net_answer}

-- The network core, and the application core with the calls of the user image.
pub record Device (L : Type 0) : Type 0 where
  pub net : NetState
  pub gateway : GatewayState L

-- A step of either core. The application core calls the network core as it then is.
pub data DeviceEvent : Type 0 where
  packet : ℕ → List ℕ → DeviceEvent
  status_timer : DeviceEvent
  net_interrupt : Bool → Bool → DeviceEvent
  net_round : Inputs → DeviceEvent
  app_interrupt : Loop.IpcEvents → DeviceEvent
  app_round : Inputs → ℕ → DeviceEvent
  log_data : Memory → ℕ → ℕ → DeviceEvent
  keep_alive : ℕ → DeviceEvent

module _ {L : Type 0} where
  -- What a core has written to the shared structure is what the other one reads.
  abbrev pub after_net : GatewayState L → Outcome NetState → Outcome (Device L)
  after_net g (next n) =
      next (record { net = n; gateway = record g { app = record g.app { shared = n.shared } } })
  after_net g (stopped n) =
      stopped (record { net = n; gateway = record g { app = record g.app { shared = n.shared } } })
  after_net g fault = fault

  abbrev pub after_app : Device L → Outcome (AppState L) → Outcome (Device L)
  after_app d (next a) = next (record d { gateway = record d.gateway { app = a } })
  after_app d (stopped a) = stopped (record d { gateway = record d.gateway { app = a } })
  after_app d fault = fault

  -- The request buffer and the counts of the shared structure are within their arrays.
  abbrev pub DeviceWithin : Device L → Type 0
  DeviceWithin d = IsWithin (record d.net { shared = d.gateway.app.shared })

-- Packets come as the controller sends them: a chunk has at most 128 bytes, and says so.
abbrev pub IsFairStep : DeviceEvent → Type 0
IsFairStep (packet dst bs) = IsFair bs
IsFairStep _ = Unit

abbrev pub AllFair : List DeviceEvent → Type 0
AllFair [] = Unit
AllFair (e ∷ es) = IsFairStep e × AllFair es

module _ (p : Platform) (store : Store) (r : Reals)
    (process : List Basestation → List Basestation) where
  unfoldable pub on_net :
      NetEvent → Device (LocalizationData r) → Outcome (Device (LocalizationData r))
  unfolding step
  on_net e d = after_net d.gateway (step p e (record d.net { shared = d.gateway.app.shared }))

  unfoldable pub device_step :
      DeviceEvent → Device (LocalizationData r) → Outcome (Device (LocalizationData r))
  unfolding on_net
  device_step (packet dst bs) d = on_net (radio (MrEvent.new_packet dst bs)) d
  device_step status_timer d = on_net timer d
  device_step (net_interrupt req log) d = on_net (ipc req log) d
  device_step (net_round e) d = on_net (round e) d
  device_step (app_interrupt e) d = after_app d (next (Loop.ipc_irq_handler e d.gateway.app))
  device_step (app_round e level) d =
      after_app d (main_loop (localizer r process) store (net_answer e d.net) level d.gateway.app)
  device_step (log_data m addr size) d =
      next (record d { gateway = swarmit_log_data m addr size d.gateway })
  device_step (keep_alive level) d =
      next (record d { gateway = swarmit_keep_alive (localizer r process) level d.gateway })

  unfoldable pub device_run :
      List DeviceEvent → Device (LocalizationData r) → Outcome (Device (LocalizationData r))
  unfolding device_step
  device_run [] d = next d
  device_run (e ∷ es) d = device_step e d >>= device_run es
