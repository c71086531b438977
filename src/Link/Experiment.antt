-- ===== src/Link/Experiment.antt =====
-- An experiment from its start to its stop, through both cores: the requests that
-- device/network_core/Source/main.c serves, the wires to device/bootloader/Source/main.c, its main
-- loop, its second watchdog, and its next start.
use swarmit.Base.{
  ℕ, ◌<◌, ◌≡◌, ◌≢◌, refl, ◌∙◌, ap, sym, subst, arith, Bool, true, false, List, [], ◌∷◌, ◌==◌, ◌&&◌,
  ◌||◌, length, Outcome, next, Returns, Stops, Stops-map,
}
use swarmit.Protocol.{
  ready, running, stopping, is_running, is_resetting, is_programming, msg_start, msg_stop,
}
use swarmit.Shared.{chan_application_start, chan_application_stop}
use swarmit.Nvmc.{Store}
use swarmit.Localization.{Localizer}
use swarmit.Net.{Platform, send_task, task_send}
use swarmit.Net.Request.{on_start, on_stop, dispatch}
use swarmit.App.{NetCore, IsNetCore, AppState}
use swarmit.App.Ota.{handle_ota_start, handle_ota_chunk}
use swarmit.App.Loop.{
  boot_intent_user_image, load_calibration, start_capture, handle_resets, main_loop,
  ipc_irq_handler,
}
use swarmit.App.Boot.{Machine, is_soft_reset, start_up}
use swarmit.App.Start.{Wakes, Starts, IsFresh, start-user, start-ready}
use swarmit.Tz.{SpuBits}
use swarmit.Tz.User.{Board, ScbMasks}
use swarmit.Wires.Delivery.{net_ipc}
use swarmit.Link.{raised, events_of}
use swarmit.Link.Robot.{Robot, then_app}
use swarmit.Link.Wired.{starts_watchdog1, app_wires, interrupts_lem}
use swarmit.Link.Round.{
  net_serves, serve_round, through_lem, with_net-Stops, arrived, net_serves-dispatch,
}

-- A robot that is ready, with nothing asked of its bootloader.
pub record IsWaiting {L : Type 0} (r : Robot L) : Type 0 where
  pub room : 0 < length r.net.req_buffer
  pub status : r.app.shared.status ≡ ready
  pub ota_start : r.app.ota_start_request ≡ false
  pub ota_chunk : r.app.ota_chunk_request ≡ false
  pub calibration : r.app.lh2_calibration_ready ≡ false

-- A round with a start asked for, and no update or calibration, resets the chip.
round-start :
    {L : Type 0} (loc : Localizer L) (store : Store) (answer : NetCore) (level : ℕ) (s : AppState L)
    → s.start_application ≡ true
    → s.ota_start_request ≡ false
    → s.ota_chunk_request ≡ false
    → s.lh2_calibration_ready ≡ false
    → Stops (λ s'. s'.boot_intent ≡ boot_intent_user_image) (main_loop loc store answer level s)
unfolding main_loop load_calibration start_capture handle_ota_start handle_ota_chunk handle_resets
round-start loc store answer level s a b c d = ground arith

-- A start that the robot is waiting for.
module _ {L : Type 0} (p : Platform) (loc : Localizer L) (store : Store) (answer : NetCore)
    (level : ℕ) (bs : List ℕ) (r : Robot L) (ne : p.metrics_probe ≢ msg_start)
    (w : IsWaiting r) where
  start-sent :
      net_serves p (msg_start ∷ bs) r
      ≡ next (send_task chan_application_start (arrived (msg_start ∷ bs) r))
  unfolding dispatch on_start
  start-sent = net_serves-dispatch p msg_start bs r refl ne w.room ∙ ground (arith, w.status)

  -- The bootloader asks for the user image and resets the chip.
  start-resets :
      Stops
        (λ r'. r'.app.boot_intent ≡ boot_intent_user_image)
        (serve_round p loc store answer app_wires level (msg_start ∷ bs) r)
  unfolding serve_round net_serves ipc_irq_handler events_of raised
  start-resets =
      subst (Stops (λ r'. r'.app.boot_intent ≡ boot_intent_user_image))
        (sym (
          through_lem work r.app (net_serves p (msg_start ∷ bs) r)
          ∙ ap (then_app work r.app) start-sent))
        (with_net-Stops (λ s. s.boot_intent ≡ boot_intent_user_image) _ _
          (round-start loc store answer level asked refl w.ota_start w.ota_chunk w.calibration))
    where
      work : AppState L → Outcome (AppState L)
      work = main_loop loc store answer level

      asked : AppState L
      asked =
          ipc_irq_handler (events_of (task_send chan_application_start ∷ []))
            (record r.app { shared = r.app.shared })

  -- A start leads to the experiment: a robot that is ready, with a request buffer and no update or
  -- calibration waiting in its bootloader, takes the packet, its bootloader resets the chip, and the
  -- start that follows, whatever the memory holds except for the intent, jumps to the user image
  -- with the status running. The packet is not taken for a probe of the radio; the reset is seen as
  -- one by software, the network core comes up and acknowledges, leaving update and status alone,
  -- and the localization starts with any calibration it has room for.
  pub start_lem :
      (bits : SpuBits) (masks : ScbMasks) (board : Board) (sreq_msk : ℕ) (wake : NetCore)
      → Wakes wake
      → IsNetCore answer
      → Starts loc
      → (forced_off : Bool) (device_type level' : ℕ) (m : Machine) (t : AppState L)
      → is_soft_reset sreq_msk m.reset_reason ≡ true
      → Stops
          (λ r'.
            ((start_up loc bits masks board sreq_msk wake answer forced_off device_type level' m
                (record t { boot_intent = r'.app.boot_intent })).0.in_user_image
              ≡ true)
            × Stops
                (λ s. s.shared.status ≡ running)
                (start_up loc bits masks board sreq_msk wake answer forced_off device_type level' m
                  (record t { boot_intent = r'.app.boot_intent })).1)
          (serve_round p loc store answer app_wires level (msg_start ∷ bs) r)
  start_lem bits masks board sreq_msk wake wakes a i forced_off device_type level' m t soft =
      Stops-map (serve_round p loc store answer app_wires level (msg_start ∷ bs) r) start-resets
        (λ r' e.
          start-user loc bits masks board sreq_msk wake answer wakes a forced_off device_type level'
            m (record t { boot_intent = r'.app.boot_intent }) i soft e)

stop-sent :
    {L : Type 0} (p : Platform) (bs : List ℕ) (r : Robot L)
    → p.metrics_probe ≢ msg_stop
    → 0 < length r.net.req_buffer
    → (is_running r.app.shared.status
        || is_resetting r.app.shared.status
        || is_programming r.app.shared.status)
      ≡ true
    → net_serves p (msg_stop ∷ bs) r
      ≡ next (
          send_task chan_application_stop (record (arrived (msg_stop ∷ bs) r) {
            shared = record r.app.shared { status = stopping };
          }))
unfolding dispatch on_stop
stop-sent p bs r ne room st = net_serves-dispatch p msg_stop bs r refl ne room ∙ ground (arith, st)

-- A stop ends the experiment: the network core that serves the packet while the user image runs, or
-- during a reset or an update, marks the robot as stopping and starts the second watchdog through
-- the wires, and the start after the reset of the watchdog, whatever the memory holds, comes to the
-- loop of the bootloader with the status ready and an erase due. There is a request buffer, and the
-- packet is not taken for a probe of the radio; the reset is not seen as one by software, the core
-- has not jumped before it, and the network core comes up and acknowledges, leaving update and
-- status alone.
pub stop_lem :
    {L : Type 0} (p : Platform) (loc : Localizer L) (bs : List ℕ) (r : Robot L)
    → p.metrics_probe ≢ msg_stop
    → 0 < length r.net.req_buffer
    → (is_running r.app.shared.status
        || is_resetting r.app.shared.status
        || is_programming r.app.shared.status)
      ≡ true
    → (bits : SpuBits) (masks : ScbMasks) (board : Board) (sreq_msk : ℕ) (wake answer : NetCore)
    → Wakes wake
    → IsNetCore answer
    → (forced_off : Bool) (device_type level : ℕ) (m : Machine) (t : AppState L)
    → is_soft_reset sreq_msk m.reset_reason ≡ false
    → m.in_user_image ≡ false
    → Returns
        (λ n.
          (n.shared.status ≡ stopping) × (starts_watchdog1 net_ipc app_wires 16 n.effects ≡ true))
        (net_serves p (msg_stop ∷ bs) r)
      × ((start_up loc bits masks board sreq_msk wake answer forced_off device_type level m
            t).0.in_user_image
          ≡ false)
      × Returns IsFresh
          (start_up loc bits masks board sreq_msk wake answer forced_off device_type level m t).1
unfolding raised
stop_lem p loc bs r ne room st bits masks board sreq_msk wake answer wakes a forced_off device_type
      level m t soft out =
    (
      subst
          (Returns (λ n.
            (n.shared.status ≡ stopping)
            × (starts_watchdog1 net_ipc app_wires 16 n.effects ≡ true)))
          (sym (stop-sent p bs r ne room st))
          (refl, (interrupts_lem (task_send chan_application_stop ∷ [])).1),
      started.0 ∙ out,
      started.1,
    )
  where
    started :
        ((start_up loc bits masks board sreq_msk wake answer forced_off device_type level m
            t).0.in_user_image
          ≡ m.in_user_image)
        × Returns IsFresh
            (start_up loc bits masks board sreq_msk wake answer forced_off device_type level m t).1
    started =
        start-ready loc bits masks board sreq_msk wake answer wakes a forced_off device_type level m
          t (ap (λ b. b && t.boot_intent == boot_intent_user_image) soft)
