-- ===== src/Net/Bounds.antt =====
-- The arrays that device/network_core/Source/main.c copies from and to, in any order of its events.
use swarmit.Base.{
  ℕ, zero, suc, ◌≤◌, ◌<◌, ◌≡◌, ◌∙◌, refl, arith, true, false, List, [], ◌∷◌, ◌==◌, ◌&&◌, length,
  get_or, write_at, length-write_at, if-elim, ◌>>=◌, Ensures, Ensures->>=, sym, not, leb, ltb,
  Ensures-map,
}
use swarmit.Protocol.{
  msg_start, msg_stop, msg_reset, msg_ota_start, msg_ota_chunk, msg_lh2_calibration,
  msg_lh2_capture, request_type, ota_chunk_pkt, is_programming, is_ready,
}
use swarmit.Shared.{IpcSharedData, log_data_size, ota_buffer_size, lh2_basestation_count_max}
use swarmit.Net.{Platform, Inputs, NetState}
use swarmit.Net.Packet.{
  MrEvent, handle_packet, mari_event_callback, on_send_status, ipc_irq_handler,
}
use swarmit.Net.Request.{
  equal_bytes, set_ota, on_start, on_stop, on_reset, on_ota_start, on_ota_chunk, verify_chunk,
  on_lh2_calibration, on_lh2_capture, dispatch, handle_request,
}
use swarmit.Net.Loop.{
  announce_calibration, notify_status, notify_log, handle_ipc, forward_data, reply_metrics,
  main_loop,
}
use swarmit.Net.Runs.{NetEvent, radio, timer, ipc, round, app_core, step, WritesInPlace}
use swarmit.Net.Chunk.{fits}

-- The counts of the shared structure stay within its arrays.
pub record WithinArrays (d : IpcSharedData) : Type 0 where
  pub log : d.log.len ≤ log_data_size
  pub matrices : d.lh2_calibration.homography_count ≤ lh2_basestation_count_max

-- The chunk that waits, if one does, is no larger than its buffer.
abbrev pub ChunkFits : List ℕ → Type 0
ChunkFits buffer = request_type buffer ≡ msg_ota_chunk → get_or buffer 5 0 ≤ ota_buffer_size

pub record IsWithin (s : NetState) : Type 0 where
  pub room : length s.req_buffer ≡ 255
  pub chunk : s.req_received ≡ true → ChunkFits s.req_buffer
  pub shared : WithinArrays s.shared

-- A packet as the controller sends it: it has a type, and a chunk has its size behind its index, at
-- most 128.
pub record IsFair (bs : List ℕ) : Type 0 where
  pub type : 0 < length bs
  pub chunk : get_or bs 0 0 ≡ msg_ota_chunk → (5 < length bs) × (get_or bs 5 0 ≤ ota_buffer_size)

get_or-write_at_zero :
    (xs bs : List ℕ) (k d : ℕ)
    → k < length bs
    → k < length xs
    → get_or (write_at xs 0 bs) k d ≡ get_or bs k d
get_or-write_at_zero [] bs k d h g = absurd (omega arith)
get_or-write_at_zero (x ∷ xs) [] k d h g = absurd (omega arith)
get_or-write_at_zero (x ∷ xs) (b ∷ bs) zero d h g = refl
get_or-write_at_zero (x ∷ xs) (b ∷ bs) (suc k) d h g =
    get_or-write_at_zero xs bs k d (omega arith) (omega arith)

received-ChunkFits :
    (buffer bs : List ℕ) → length buffer ≡ 255 → IsFair bs → ChunkFits (write_at buffer 0 bs)
received-ChunkFits buffer bs l f e = grind (
  arith,
  get_or-write_at_zero buffer bs 5 0 (f.chunk type).0 (omega (arith, l)),
  (f.chunk type).1,
)
  where
    type : get_or bs 0 0 ≡ msg_ota_chunk
    type = sym (get_or-write_at_zero buffer bs 0 0 f.type (omega (arith, l))) ∙ e

packet-IsWithin :
    (p : Platform) (dst : ℕ) (bs : List ℕ) (s : NetState)
    → IsFair bs
    → IsWithin s
    → IsWithin (handle_packet p dst bs s)
unfolding handle_packet
packet-IsWithin p dst bs s f h =
    ground (arith, length-write_at s.req_buffer 0 bs, received-ChunkFits s.req_buffer bs h.room f)

-- What holds once the request that waited is served.
record IsServed (s : NetState) : Type 0 where
  room : length s.req_buffer ≡ 255
  idle : s.req_received ≡ false
  shared : WithinArrays s.shared

verify_chunk-IsServed :
    (p : Platform) (s : NetState)
    → get_or s.req_buffer 5 0 ≤ ota_buffer_size
    → IsServed s
    → Ensures IsServed (verify_chunk p s)
unfolding verify_chunk
verify_chunk-IsServed p s c h =
    rw (fits (ota_chunk_pkt s.req_buffer).chunk_size (length s.req_buffer) c h.room)
      (if-elim (Ensures IsServed) (equal_bytes 8 _ _) (λ _. ground arith) (λ _. ground arith))

chunk-IsServed :
    (p : Platform) (s : NetState)
    → get_or s.req_buffer 5 0 ≤ ota_buffer_size
    → IsServed s
    → Ensures IsServed (on_ota_chunk p s)
unfolding on_ota_chunk
chunk-IsServed p s c h =
    if-elim (Ensures IsServed)
      (not (is_programming s.shared.status) && not (is_ready s.shared.status)) (λ _. h)
      λ _.
        if-elim (Ensures IsServed) (leb s.shared.ota.chunk_count (ota_chunk_pkt s.req_buffer).index)
          (λ _. ground arith)
          λ _.
            if-elim (Ensures IsServed)
              (s.shared.ota.last_chunk_acked == (ota_chunk_pkt s.req_buffer).index)
              (λ _. ground arith)
              λ _.
                verify_chunk-IsServed p
                  (set_ota
                    (record s.shared.ota { chunk_index = (ota_chunk_pkt s.req_buffer).index }) s)
                  c (ground arith)

calibration-IsServed :
    (p : Platform) (s : NetState) → IsServed s → Ensures IsServed (on_lh2_calibration p s)
unfolding on_lh2_calibration
calibration-IsServed p s h = ground arith

simple-IsServed :
    (s : NetState)
    → IsServed s
    → IsServed (on_start s)
      × IsServed (on_stop s)
      × IsServed (on_reset s)
      × IsServed (on_ota_start s)
      × IsServed (on_lh2_capture s)
unfolding on_start on_stop on_reset on_ota_start on_lh2_capture
simple-IsServed s h = ground arith

dispatch-IsServed :
    (p : Platform) (s : NetState)
    → ChunkFits s.req_buffer
    → IsServed s
    → Ensures IsServed (dispatch p (request_type s.req_buffer) s)
unfolding dispatch
dispatch-IsServed p s c h =
    let (start, stop, reset, ota_start, capture) = simple-IsServed s h in
    if-elim (Ensures IsServed) (t == msg_start) (λ _. start)
      λ _.
        if-elim (Ensures IsServed) (t == msg_stop) (λ _. stop)
          λ _.
            if-elim (Ensures IsServed) (t == msg_reset) (λ _. reset)
              λ _.
                if-elim (Ensures IsServed) (t == msg_ota_start) (λ _. ota_start)
                  λ _.
                    if-elim (Ensures IsServed) (t == msg_ota_chunk)
                      (λ q. chunk-IsServed p s (c (ground (arith, q))) h)
                      λ _.
                        if-elim (Ensures IsServed) (t == msg_lh2_calibration)
                          (λ _. calibration-IsServed p s h)
                          λ _.
                            if-elim (Ensures IsServed) (t == msg_lh2_capture) (λ _. capture) λ _. h
  where
    t : ℕ
    t = request_type s.req_buffer

request-IsServed :
    (p : Platform) (s : NetState) → IsWithin s → Ensures IsServed (handle_request p s)
unfolding handle_request
request-IsServed p s h =
    if-elim (Ensures IsServed) s.req_received
      (λ q. dispatch-IsServed p (record s { req_received = false }) (h.chunk q) (ground arith))
      (λ q. ground arith)

announce-IsWithin : (s : NetState) → IsWithin s → IsWithin (announce_calibration s)
unfolding announce_calibration
announce-IsWithin s h = ground arith

status-IsWithin : (s : NetState) → IsWithin s → IsWithin (notify_status s)
unfolding notify_status
status-IsWithin s h = ground arith

ipc-IsServed : (e : Inputs) (s : NetState) → IsServed s → Ensures IsServed (handle_ipc e s)
unfolding handle_ipc
ipc-IsServed e s h = ground arith

forward-IsServed : (s : NetState) → IsServed s → IsServed (forward_data s)
unfolding forward_data
forward-IsServed s h = ground arith

metrics-IsServed :
    (p : Platform) (e : Inputs) (s : NetState)
    → WritesInPlace p
    → IsServed s
    → IsServed (reply_metrics p e s)
unfolding reply_metrics
metrics-IsServed p e s w h =
    if-elim IsServed s.metrics_received
      (λ _. record { room = w s.req_buffer _ _ _ _ _ ∙ h.room; idle = h.idle; shared = h.shared })
      (λ _. h)

log-IsServed : (e : Inputs) (s : NetState) → IsServed s → Ensures IsServed (notify_log e s)
unfolding notify_log
log-IsServed e s h =
    if-elim (Ensures IsServed) (not s.ipc_log_received) (λ _. h)
      λ _. rw small (record { room = h.room; idle = h.idle; shared = h.shared })
  where
    small : ltb log_data_size s.shared.log.len ≡ false
    small = ground (arith, h.shared.log)

round-IsWithin :
    (p : Platform) (e : Inputs) (s : NetState)
    → WritesInPlace p
    → IsWithin s
    → Ensures IsWithin (main_loop p e s)
unfolding main_loop
round-IsWithin p e s w h =
    Ensures-map (main_loop p e s)
      (Ensures->>= IsServed (handle_request p s0 >>= handle_ipc e) _
        (Ensures->>= IsServed (handle_request p s0) (handle_ipc e)
          (request-IsServed p s0 (status-IsWithin _ (announce-IsWithin s h))) (ipc-IsServed e))
        (λ t k. log-IsServed e _ (metrics-IsServed p e _ w (forward-IsServed t k))))
      (λ t k. record {
        room = k.room;
        chunk = λ q. absurd (ground (arith, k.idle));
        shared = k.shared;
      })
  where
    s0 : NetState
    s0 = notify_status (announce_calibration s)

-- The events of the controller and of the other core keep to what these two send and write.
abbrev pub IsFairEvent : NetEvent → Type 0
IsFairEvent (radio (MrEvent.new_packet dst bs)) = IsFair bs
IsFairEvent (app_core d) = WithinArrays d
IsFairEvent _ = Unit

radio-IsWithin :
    (p : Platform) (e : MrEvent) (s : NetState)
    → IsFairEvent (radio e)
    → IsWithin s
    → IsWithin (mari_event_callback p e s)
unfolding mari_event_callback
radio-IsWithin p (MrEvent.new_packet dst bs) s f h = packet-IsWithin p dst bs s f h
radio-IsWithin p _ s f h = h

pub step-IsWithin :
    (p : Platform) (e : NetEvent) (s : NetState)
    → WritesInPlace p
    → IsFairEvent e
    → IsWithin s
    → Ensures IsWithin (step p e s)
unfolding step on_send_status ipc_irq_handler
step-IsWithin p (radio e) s w f h = radio-IsWithin p e s f h
step-IsWithin p timer s w f h = ground arith
step-IsWithin p (ipc a b) s w f h = ground arith
step-IsWithin p (round e) s w f h = round-IsWithin p e s w h
step-IsWithin p (app_core d) s w f h = record { room = h.room; chunk = h.chunk; shared = f }
