-- ===== src/Link/Round.antt =====
-- A packet that the network core serves, the interrupts that it leads to, and a round of the
-- bootloader's main loop (device/network_core/Source/main.c, device/bootloader/Source/main.c).
use swarmit.Base.{
  ℕ, ◌<◌, ◌≡◌, ◌≢◌, refl, ◌∙◌, ap, true, false, List, [], ◌∷◌, length, write_at, Outcome, next,
  stopped, fault, Stops,
}
use swarmit.Base.Splice.{get_or-write_at_head}
use swarmit.Nvmc.{Store}
use swarmit.Localization.{Localizer}
use swarmit.Net.{Platform, NetState}
use swarmit.Net.Packet.{handle_packet, is_request}
use swarmit.Net.Request.{dispatch, handle_request}
use swarmit.Net.Session.{received}
use swarmit.App.{NetCore, AppState}
use swarmit.App.Loop.{main_loop, ipc_irq_handler}
use swarmit.Wires.{Wires}
use swarmit.Wires.Delivery.{net_ipc}
use swarmit.Link.Robot.{Robot, with_net, then_app}
use swarmit.Link.Wired.{interrupts, app_wires, interrupts_lem}

-- A packet served by the network core, over the structure that both cores share.
unfoldable pub net_serves : {L : Type 0} → Platform → List ℕ → Robot L → Outcome NetState
net_serves p packet r = handle_request p (
    handle_packet p p.broadcast_address packet
      (record r.net { shared = r.app.shared; effects = [] }))

-- What the application core does then, once its handler has found the events that its wires give it.
abbrev pub through :
    {L : Type 0}
    → Wires
    → (AppState L → Outcome (AppState L))
    → AppState L
    → Outcome NetState
    → Outcome (Robot L)
through w work a (next n) =
    with_net n
      (work (ipc_irq_handler (interrupts net_ipc w n.effects) (record a { shared = n.shared })))
through w work a (stopped n) = stopped (record {
  net = n;
  app = ipc_irq_handler (interrupts net_ipc w n.effects) (record a { shared = n.shared });
})
through w work a fault = fault

-- A packet, the interrupts it leads to, and a round of the bootloader's main loop.
unfoldable pub serve_round :
    {L : Type 0}
    → Platform
    → Localizer L
    → Store
    → NetCore
    → Wires
    → ℕ
    → List ℕ
    → Robot L
    → Outcome (Robot L)
unfolding net_serves interrupts ipc_irq_handler
serve_round p loc store answer w level packet r =
    through w (main_loop loc store answer level) r.app (net_serves p packet r)

pub through_lem :
    {L : Type 0} (work : AppState L → Outcome (AppState L)) (a : AppState L) (o : Outcome NetState)
    → through app_wires work a o ≡ then_app work a o
through_lem work a (next n) =
    ap (λ e. with_net n (work (ipc_irq_handler e (record a { shared = n.shared }))))
      (interrupts_lem n.effects).0
through_lem work a (stopped n) =
    ap (λ e. stopped (record { net = n; app = ipc_irq_handler e (record a { shared = n.shared }) }))
      (interrupts_lem n.effects).0
through_lem work a fault = refl

pub with_net-Stops :
    {L : Type 0} (P : AppState L → Type 0) (n : NetState) (w : Outcome (AppState L))
    → Stops P w
    → Stops (λ r. P r.app) (with_net n w)
with_net-Stops P n (next a) h = absurd h
with_net-Stops P n (stopped a) h = h
with_net-Stops P n fault h = absurd h

-- The network core with a packet in its buffer that it serves.
abbrev pub arrived : {L : Type 0} → List ℕ → Robot L → NetState
arrived packet r = record r.net {
  req_buffer = write_at r.net.req_buffer 0 packet;
  req_received = false;
  shared = r.app.shared;
  effects = [];
}

pub net_serves-dispatch :
    {L : Type 0} (p : Platform) (type : ℕ) (bs : List ℕ) (r : Robot L)
    → is_request type ≡ true
    → p.metrics_probe ≢ type
    → 0 < length r.net.req_buffer
    → net_serves p (type ∷ bs) r ≡ dispatch p type (arrived (type ∷ bs) r)
unfolding net_serves handle_request
net_serves-dispatch p type bs r q ne h =
    ap (handle_request p)
      (received p type bs (record r.net { shared = r.app.shared; effects = [] }) q ne h)
    ∙ ap (λ y. dispatch p y (arrived (type ∷ bs) r))
        (get_or-write_at_head r.net.req_buffer bs type 0 h)
