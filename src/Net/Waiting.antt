-- ===== src/Net/Waiting.antt =====
-- A log that waits in the network core, through a round of the main loop
-- (device/network_core/Source/main.c).
use swarmit.Base.{
  ◌≤◌, ◌≡◌, ◌∷◌, ◌∙◌, ap, arith, true, false, List, length, length-write_at, subst, sym, next,
  Returns, Returns-map, Returns->>=, ◌>>=◌,
}
use swarmit.Shared.{log_data_size}
use swarmit.Net.{Platform, Inputs, NetState, Effect, tx_payload, tx_default}
use swarmit.Net.Request.{handle_request}
use swarmit.Net.Loop.{
  announce_calibration, notify_status, status_message, handle_ipc, forward_data, reply_metrics,
  log_message, notify_log, main_loop,
}
use swarmit.Net.Notify.{notify_log-payload}

-- What the notification of a log is made of is the same in both states.
record SameLog (s s' : NetState) : Type 0 where
  flag : s'.ipc_log_received ≡ s.ipc_log_received
  room : length s'.notification_buffer ≡ length s.notification_buffer
  log : s'.shared.log ≡ s.shared.log

trans-SameLog : (s s' t : NetState) → SameLog s s' → SameLog s' t → SameLog s t
trans-SameLog s s' t x y = record {
  flag = y.flag ∙ x.flag;
  room = y.room ∙ x.room;
  log = y.log ∙ x.log;
}

announce_calibration-SameLog : (s : NetState) → SameLog s (announce_calibration s)
unfolding announce_calibration
announce_calibration-SameLog s = ground arith

notify_status-SameLog : (s : NetState) → SameLog s (notify_status s)
unfolding notify_status
notify_status-SameLog s =
    ground (arith, length-write_at s.notification_buffer 0 (status_message s.shared))

handle_ipc-SameLog :
    (e : Inputs) (s : NetState) → e.connected ≡ true → Returns (SameLog s) (handle_ipc e s)
unfolding handle_ipc
handle_ipc-SameLog e s c = ground arith

forward_data-SameLog : (s : NetState) → SameLog s (forward_data s)
unfolding forward_data
forward_data-SameLog s = ground arith

reply_metrics-SameLog : (p : Platform) (e : Inputs) (s : NetState) → SameLog s (reply_metrics p e s)
unfolding reply_metrics
reply_metrics-SameLog p e s = ground arith

handle_request-idle :
    (p : Platform) (s : NetState) → s.req_received ≡ false → handle_request p s ≡ next s
unfolding handle_request
handle_request-idle p s h = ground arith

notified_req_received :
    (s : NetState) → (notify_status (announce_calibration s)).req_received ≡ s.req_received
unfolding notify_status announce_calibration
notified_req_received s = ground arith

module _ (p : Platform) (e : Inputs) (connected : e.connected ≡ true) where
  -- The blocks before the one for logs.
  before-SameLog :
      (s : NetState)
      → s.req_received ≡ false
      → Returns
          (SameLog s)
          (handle_request p (notify_status (announce_calibration s)) >>= handle_ipc e)
  before-SameLog s r =
      subst (λ o. Returns (SameLog s) (o >>= handle_ipc e))
        (sym (handle_request-idle p notified (notified_req_received s ∙ r)))
        (Returns-map (handle_ipc e notified) (handle_ipc-SameLog e notified connected) (λ s' x.
          trans-SameLog s notified s'
            (trans-SameLog s (announce_calibration s) notified (announce_calibration-SameLog s)
              (notify_status-SameLog (announce_calibration s)))
            x))
    where
      notified : NetState
      notified = notify_status (announce_calibration s)

  -- A round with a log that waits sends it as the last thing it does.
  pub main_loop-log :
      (s : NetState)
      → s.req_received ≡ false
      → s.ipc_log_received ≡ true
      → length s.notification_buffer ≡ 255
      → length s.shared.log.bytes ≡ 127
      → s.shared.log.len ≤ log_data_size
      → Returns
          (λ s'.
            (es : List Effect) × (s'.effects
              ≡ tx_payload (log_message e.timestamp s.shared) tx_default ∷ es))
          (main_loop p e s)
  unfolding main_loop log_message
  main_loop-log s r f l d n =
      Returns->>= (SameLog s)
        (λ s'.
          (es : List Effect) × (s'.effects
            ≡ tx_payload (log_message e.timestamp s.shared) tx_default ∷ es))
        (handle_request p (notify_status (announce_calibration s)) >>= handle_ipc e)
        (λ s'. notify_log e (reply_metrics p e (forward_data s'))) (before-SameLog s r)
        (λ s' x. sent (reply_metrics p e (forward_data s')) (
          trans-SameLog s s' _ x (
            trans-SameLog s' (forward_data s') _ (forward_data-SameLog s')
              (reply_metrics-SameLog p e (forward_data s')))))
    where
      sent :
          (t : NetState)
          → SameLog s t
          → Returns
              (λ s'.
                (es : List Effect) × (s'.effects
                  ≡ tx_payload (log_message e.timestamp s.shared) tx_default ∷ es))
              (notify_log e t)
      sent t x =
          Returns-map (notify_log e t)
            (notify_log-payload e t (x.flag ∙ f) (x.room ∙ l) (ap (λ g. length g.bytes) x.log ∙ d)
              (subst (λ g. g.len ≤ 127) (sym x.log) n))
            (λ u y. (t.effects, y.0 ∙ grind (arith, x.log)))
