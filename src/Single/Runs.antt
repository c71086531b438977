-- ===== src/Single/Runs.antt =====
-- Runs of device/bootloader-single-core/Source/main.c from its start on, in any order of its events.
use swarmit.Base.{
  ℕ, ◌≡◌, ◌∙◌, refl, arith, Bool, false, List, [], ◌∷◌, Outcome, next, ◌>>=◌, Leads, Leads->>=,
  if-elim, sym, Leads-map,
}
use swarmit.Protocol.{is_running}
use swarmit.Nvmc.{Store}
use swarmit.Net.{Platform, Inputs}
use swarmit.Net.Packet.{MrEvent}
use swarmit.App.Boot.{is_soft_reset}
use swarmit.Single.{SingleState}
use swarmit.Single.Request.{
  handle_packet, mari_event_callback, on_send_status, on_read_battery, handle_request,
}
use swarmit.Single.Loop.{
  notify_status, reply_metrics, notify_log, handle_ota_start, handle_ota_chunk, update_battery,
  main_loop,
}
use swarmit.Single.Start.{SingleMachine, start_up}

pub data SingleEvent : Type 0 where
  radio : MrEvent → SingleEvent
  status_timer battery_timer : SingleEvent
  round : Inputs → ℕ → SingleEvent

unfoldable step : Platform → SingleEvent → SingleState → Outcome SingleState
unfolding mari_event_callback on_send_status on_read_battery main_loop
step p (radio e) s = next (mari_event_callback p e s)
step p status_timer s = next (on_send_status s)
step p battery_timer s = next (on_read_battery s)
step p (round e level) s = main_loop p e level s

pub run : Platform → List SingleEvent → SingleState → Outcome SingleState
run p [] s = next s
run p (e ∷ es) s = step p e s >>= run p es

-- The loop runs.
record IsLooping (s : SingleState) : Type 0 where
  out : s.in_user_image ≡ false
  status : is_running s.vars.status ≡ false

request-IsLooping :
    (p : Platform) (s : SingleState) → IsLooping s → Leads IsLooping (handle_request p s)
unfolding handle_request
request-IsLooping p s h = ground arith

log-IsLooping : (e : Inputs) (s : SingleState) → IsLooping s → Leads IsLooping (notify_log e s)
unfolding notify_log
log-IsLooping e s h = ground arith

start-IsLooping :
    (store : Store) (c : Bool) (s : SingleState)
    → IsLooping s
    → Leads IsLooping (handle_ota_start store c s)
unfolding handle_ota_start
start-IsLooping store c s h = ground arith

chunk-IsLooping :
    (store : Store) (c : Bool) (s : SingleState)
    → IsLooping s
    → Leads IsLooping (handle_ota_chunk store c s)
unfolding handle_ota_chunk
chunk-IsLooping store c s h = ground arith

simple-IsLooping :
    (p : Platform) (e : Inputs) (level : ℕ) (s : SingleState)
    → IsLooping s
    → IsLooping (notify_status s)
      × IsLooping (reply_metrics p e s)
      × IsLooping (update_battery level s)
unfolding notify_status reply_metrics update_battery
simple-IsLooping p e level s h = ground arith

packet-IsLooping :
    (p : Platform) (e : MrEvent) (s : SingleState)
    → IsLooping s
    → IsLooping (mari_event_callback p e s)
unfolding mari_event_callback handle_packet
packet-IsLooping p e s h = ground arith

round-IsLooping :
    (p : Platform) (e : Inputs) (level : ℕ) (s : SingleState)
    → IsLooping s
    → Leads IsLooping (main_loop p e level s)
unfolding main_loop
round-IsLooping p e level s h =
    Leads->>= IsLooping
      (requested
        >>= noted
        >>= handle_ota_start p.store e.connected
        >>= handle_ota_chunk p.store e.connected)
      _
      (Leads->>= IsLooping (requested >>= noted >>= handle_ota_start p.store e.connected)
        (handle_ota_chunk p.store e.connected)
        (Leads->>= IsLooping (requested >>= noted) (handle_ota_start p.store e.connected)
          (Leads->>= IsLooping requested noted
            (request-IsLooping p (notify_status s) (simple-IsLooping p e level s h).0)
            (λ t k. log-IsLooping e _ (simple-IsLooping p e level t k).1))
          (λ t. start-IsLooping p.store e.connected t))
        (λ t. chunk-IsLooping p.store e.connected t))
      (λ t k. (simple-IsLooping p e level t k).2)
  where
    requested : Outcome SingleState
    requested = handle_request p (notify_status s)

    noted : SingleState → Outcome SingleState
    noted a = notify_log e (reply_metrics p e a)

step-IsLooping :
    (p : Platform) (e : SingleEvent) (s : SingleState) → IsLooping s → Leads IsLooping (step p e s)
unfolding step on_send_status on_read_battery
step-IsLooping p (radio e) s h = packet-IsLooping p e s h
step-IsLooping p status_timer s h = ground arith
step-IsLooping p battery_timer s h = ground arith
step-IsLooping p (round e level) s h = round-IsLooping p e level s h

run-IsLooping :
    (p : Platform) (es : List SingleEvent) (s : SingleState)
    → IsLooping s
    → Leads IsLooping (run p es s)
unfolding run
run-IsLooping p [] s h = h
run-IsLooping p (e ∷ es) s h =
    Leads->>= IsLooping (step p e s) (run p es) (step-IsLooping p e s h)
      (λ t k. run-IsLooping p es t k)

-- In any run from a start on, whatever packets, timers and rounds of the loop follow, the status is
-- running exactly if the reset was one by software, and then the user image has been entered, from
-- which the program does not come back to its loop: the loop, which serves the requests, never finds
-- the status running. Before the start the core is not in the user image.
pub single_start-run :
    (p : Platform) (sreq_msk device_id device_type level : ℕ) (m : SingleMachine) (s : SingleState)
    (es : List SingleEvent)
    → s.in_user_image ≡ false
    → Leads
        (λ s'.
          (is_running s'.vars.status ≡ is_soft_reset sreq_msk m.reset_reason)
          × (s'.in_user_image ≡ is_soft_reset sreq_msk m.reset_reason))
        ((start_up sreq_msk device_id device_type level m s).1 >>= run p es)
unfolding start_up
single_start-run p sreq_msk device_id device_type level m s es h =
    if-elim
      (λ (z : SingleMachine × Outcome SingleState).
        Leads
          (λ s'.
            (is_running s'.vars.status ≡ is_soft_reset sreq_msk m.reset_reason)
            × (s'.in_user_image ≡ is_soft_reset sreq_msk m.reset_reason))
          (z.1 >>= run p es))
      (is_soft_reset sreq_msk m.reset_reason) (λ q. (sym q, sym q))
      (λ q.
        Leads-map (run p es _) (run-IsLooping p es _ (record { out = h; status = refl }))
          (λ t k. (k.status ∙ sym q, k.out ∙ sym q)))
