-- ===== src/Net/Runs.antt =====
-- Runs of the network core, device/network_core/Source/main.c, in any order of its events: packets,
-- timer, interrupts, rounds of the main loop, and writes of the other core to the shared structure.
use swarmit.Base.{
  ℕ, suc, ◌≡◌, ◌∙◌, Bool, false, List, [], ◌∷◌, arith, length, length-write_at, if◌then◌else◌,
  Outcome, next, ◌>>=◌, Leads, Leads->>=, replicate, if-elim, ◌*◌, ◌==◌, true, ◌&&◌, ◌||◌,
}
use swarmit.Shared.{
  IpcSharedData, chan_radio_rx, chan_application_start, chan_application_stop, chan_soc_reset,
  chan_ota_start, chan_ota_chunk, chan_calibration_data, chan_lh2_capture,
}
use swarmit.Protocol.{
  lh2_calibration_data, msg_start, msg_stop, msg_reset, msg_ota_start, msg_ota_chunk,
  msg_lh2_calibration, msg_lh2_capture, request_type,
}
use swarmit.Net.{Platform, Inputs, Effect, mari_init, task_send, NetState}
use swarmit.Net.Packet.{MrEvent, mari_event_callback, on_send_status, ipc_irq_handler}
use swarmit.Net.Request.{
  on_start, on_stop, on_reset, on_ota_start, on_ota_chunk, on_lh2_calibration, on_lh2_capture,
  dispatch, handle_request,
}
use swarmit.Net.Loop.{
  announce_calibration, notify_status, notify_log, handle_ipc, forward_data, reply_metrics,
  main_loop,
}

pub data NetEvent : Type 0 where
  radio : MrEvent → NetEvent
  timer : NetEvent
  ipc : Bool → Bool → NetEvent
  round : Inputs → NetEvent
  app_core : IpcSharedData → NetEvent

unfoldable pub step : Platform → NetEvent → NetState → Outcome NetState
step p (radio e) s = next (mari_event_callback p e s)
step p timer s = next (on_send_status s)
step p (ipc req log) s = next (ipc_irq_handler req log s)
step p (round e) s = main_loop p e s
step p (app_core d) s = next (record s { shared = d })

pub run : Platform → List NetEvent → NetState → Outcome NetState
run p [] s = next s
run p (e ∷ es) s = step p e s >>= run p es

-- How often mari was started.
unfoldable pub inits : List Effect → ℕ
inits [] = 0
inits (mari_init n ∷ es) = suc (inits es)
inits (_ ∷ es) = inits es

-- SEND_CNF, as `main` sets it: the channels that a task of the same number raises.
abbrev pub send_cnf : ℕ → Bool
send_cnf c =
    c == chan_radio_rx
    || c == chan_application_start
    || c == chan_application_stop
    || c == chan_soc_reset
    || c == chan_ota_start
    || c == chan_ota_chunk
    || c == chan_calibration_data
    || c == chan_lh2_capture

-- Whether all tasks raised have their channel.
unfoldable pub all_sent : List Effect → Bool
all_sent [] = true
all_sent (task_send c ∷ es) = send_cnf c && all_sent es
all_sent (_ ∷ es) = all_sent es

pub record IsSane (s : NetState) : Type 0 where
  pub req_buffer : length s.req_buffer ≡ 255
  pub notification_buffer : length s.notification_buffer ≡ 255
  pub homographies : length s.config.homographies ≡ 144
  pub started : inits s.effects ≡ (if s.mari_initialized then 1 else 0)
  pub configured : all_sent s.effects ≡ true

radio-IsSane :
    (p : Platform) (e : MrEvent) (s : NetState) → IsSane s → IsSane (mari_event_callback p e s)
unfolding mari_event_callback
radio-IsSane p (MrEvent.new_packet dst bs) s h = ground (arith, length-write_at s.req_buffer 0 bs)
radio-IsSane p _ s h = h

irq-IsSane : (a b : Bool) (s : NetState) → IsSane s → IsSane (ipc_irq_handler a b s)
unfolding ipc_irq_handler
irq-IsSane a b s h = ground arith

announce-IsSane : (s : NetState) → IsSane s → IsSane (announce_calibration s)
unfolding announce_calibration inits all_sent
announce-IsSane s h = ground arith

status-IsSane : (s : NetState) → IsSane s → IsSane (notify_status s)
unfolding notify_status inits all_sent
status-IsSane s h = grind (arith, length-write_at)

forward-IsSane : (s : NetState) → IsSane s → IsSane (forward_data s)
unfolding forward_data inits all_sent
forward-IsSane s h = ground arith

log-IsSane : (e : Inputs) (s : NetState) → IsSane s → Leads IsSane (notify_log e s)
unfolding notify_log inits all_sent
log-IsSane e s h = grind (arith, length-write_at)

ipc-IsSane : (e : Inputs) (s : NetState) → IsSane s → Leads IsSane (handle_ipc e s)
unfolding handle_ipc inits all_sent
ipc-IsSane e s h = ground arith

calibration-IsSane :
    (p : Platform) (s : NetState) → IsSane s → Leads IsSane (on_lh2_calibration p s)
unfolding on_lh2_calibration inits all_sent
calibration-IsSane p s h = ground (
  arith,
  length-write_at s.config.homographies (9 * (lh2_calibration_data s.req_buffer).homography_index)
      (lh2_calibration_data s.req_buffer).homography,
  length-write_at (replicate 144 0) (9 * (lh2_calibration_data s.req_buffer).homography_index)
      (lh2_calibration_data s.req_buffer).homography,
)

chunk-IsSane : (p : Platform) (s : NetState) → IsSane s → Leads IsSane (on_ota_chunk p s)
unfolding on_ota_chunk inits all_sent
chunk-IsSane p s h = ground arith

simple-IsSane :
    (s : NetState)
    → IsSane s
    → IsSane (on_start s)
      × IsSane (on_stop s)
      × IsSane (on_reset s)
      × IsSane (on_ota_start s)
      × IsSane (on_lh2_capture s)
unfolding on_start on_stop on_reset on_ota_start on_lh2_capture inits all_sent
simple-IsSane s h = ground arith

dispatch-IsSane : (p : Platform) (t : ℕ) (s : NetState) → IsSane s → Leads IsSane (dispatch p t s)
unfolding dispatch
dispatch-IsSane p t s h =
    let (a, b, c, d, e) = simple-IsSane s h in
    if-elim (Leads IsSane) (t == msg_start) (λ _. a)
      λ _.
        if-elim (Leads IsSane) (t == msg_stop) (λ _. b)
          λ _.
            if-elim (Leads IsSane) (t == msg_reset) (λ _. c)
              λ _.
                if-elim (Leads IsSane) (t == msg_ota_start) (λ _. d)
                  λ _.
                    if-elim (Leads IsSane) (t == msg_ota_chunk) (λ _. chunk-IsSane p s h)
                      λ _.
                        if-elim (Leads IsSane) (t == msg_lh2_calibration)
                          (λ _. calibration-IsSane p s h)
                          λ _. if-elim (Leads IsSane) (t == msg_lh2_capture) (λ _. e) λ _. h

request-IsSane : (p : Platform) (s : NetState) → IsSane s → Leads IsSane (handle_request p s)
unfolding handle_request
request-IsSane p s h =
    if-elim (Leads IsSane) s.req_received
      (λ _.
        dispatch-IsSane p (request_type s.req_buffer) (record s { req_received = false })
          (ground arith))
      (λ _. h)

-- The library writes its fields into the payload where it stands.
abbrev pub WritesInPlace : Platform → Type 0
WritesInPlace p =
    (bs : List ℕ) (rx rx_asn tx tx_asn rssi : ℕ)
    → length (p.metrics_fields bs rx rx_asn tx tx_asn rssi) ≡ length bs

metrics-IsSane :
    (p : Platform) (e : Inputs) (s : NetState)
    → WritesInPlace p
    → IsSane s
    → IsSane (reply_metrics p e s)
unfolding reply_metrics inits all_sent
metrics-IsSane p e s w h =
    if-elim IsSane s.metrics_received
      (λ _. record {
        req_buffer = w s.req_buffer _ _ _ _ _ ∙ h.req_buffer;
        notification_buffer = h.notification_buffer;
        homographies = h.homographies;
        started = h.started;
        configured = h.configured;
      })
      (λ _. h)

round-IsSane :
    (p : Platform) (e : Inputs) (s : NetState)
    → WritesInPlace p
    → IsSane s
    → Leads IsSane (main_loop p e s)
unfolding main_loop
round-IsSane p e s w h =
    Leads->>= IsSane (handle_request p s0 >>= handle_ipc e) _
      (Leads->>= IsSane (handle_request p s0) (handle_ipc e)
        (request-IsSane p s0 (status-IsSane _ (announce-IsSane s h))) (ipc-IsSane e))
      (λ t k. log-IsSane e _ (metrics-IsSane p e _ w (forward-IsSane t k)))
  where
    s0 : NetState
    s0 = notify_status (announce_calibration s)

step-IsSane :
    (p : Platform) (e : NetEvent) (s : NetState)
    → WritesInPlace p
    → IsSane s
    → Leads IsSane (step p e s)
unfolding step on_send_status
step-IsSane p (radio e) s w h = radio-IsSane p e s h
step-IsSane p timer s w h = ground arith
step-IsSane p (ipc a b) s w h = irq-IsSane a b s h
step-IsSane p (round e) s w h = round-IsSane p e s w h
step-IsSane p (app_core d) s w h = ground arith

-- Whatever happens to the core, in any order: its buffers and its calibration keep the sizes that
-- the copies into them rely on, mari has been started once if the flag says so, and never
-- otherwise, and every task raised is one whose channel the start has connected. The metrics library
-- must write in place.
pub run-IsSane :
    (p : Platform) (es : List NetEvent) (s : NetState)
    → WritesInPlace p
    → IsSane s
    → Leads IsSane (run p es s)
unfolding run
run-IsSane p [] s w h = h
run-IsSane p (e ∷ es) s w h =
    Leads->>= IsSane (step p e s) (run p es) (step-IsSane p e s w h) (λ t k. run-IsSane p es t w k)
