-- ===== src/Link/Watchdog.antt =====
-- What starts the second watchdog: the requests of device/network_core/Source/main.c.
use swarmit.Base.{
  ℕ, ◌≡◌, ◌∙◌, ap, sym, arith, Bool, false, [], ◌==◌, ◌&&◌, ◌||◌, if-elim, Leads, Leads-map,
}
use swarmit.Protocol.{is_running, is_resetting, is_programming, msg_stop, request_type}
use swarmit.Shared.{chan_application_stop}
use swarmit.Net.{Platform, NetState}
use swarmit.Net.Config.{commit_config_and_reboot}
use swarmit.Net.Request.{
  verify_chunk, on_start, on_stop, on_reset, on_ota_start, on_ota_chunk, on_lh2_calibration,
  on_lh2_capture, dispatch, handle_request,
}
use swarmit.Wires.Delivery.{net_ipc}
use swarmit.Link.{raised}
use swarmit.Link.Wired.{starts_watchdog1, app_wires, interrupts_lem}

-- What a served request raises on the channel of the stop.
abbrev stops : NetState → Bool
stops n =
    is_running n.shared.status || is_resetting n.shared.status || is_programming n.shared.status

simple-stops :
    (n : NetState)
    → n.effects ≡ []
    → (raised chan_application_stop (on_start n).effects ≡ false)
      × (raised chan_application_stop (on_stop n).effects ≡ stops n)
      × (raised chan_application_stop (on_reset n).effects ≡ false)
      × (raised chan_application_stop (on_ota_start n).effects ≡ false)
      × (raised chan_application_stop (on_lh2_capture n).effects ≡ false)
unfolding on_start on_stop on_reset on_ota_start on_lh2_capture raised
simple-stops n e = ground arith

chunk-stops :
    (p : Platform) (n : NetState)
    → n.effects ≡ []
    → Leads (λ n'. raised chan_application_stop n'.effects ≡ false) (on_ota_chunk p n)
unfolding on_ota_chunk verify_chunk raised
chunk-stops p n e = ground arith

calibration-stops :
    (p : Platform) (n : NetState)
    → n.effects ≡ []
    → Leads (λ n'. raised chan_application_stop n'.effects ≡ false) (on_lh2_calibration p n)
unfolding on_lh2_calibration commit_config_and_reboot raised
calibration-stops p n e = ground arith

dispatch-stops :
    (p : Platform) (type : ℕ) (n : NetState)
    → n.effects ≡ []
    → Leads
        (λ n'. raised chan_application_stop n'.effects ≡ (type == msg_stop && stops n))
        (dispatch p type n)
unfolding dispatch
dispatch-stops p type n e =
    ground (arith, simple-stops n e, chunk-stops p n e, calibration-stops p n e)

-- A request that is served starts the second watchdog exactly if it is a stop and the robot is
-- running, resetting or being programmed. No task was raised before.
pub handle_request-watchdog :
    (p : Platform) (n : NetState)
    → n.effects ≡ []
    → Leads
        (λ n'.
          starts_watchdog1 net_ipc app_wires 16 n'.effects
          ≡ (n.req_received && request_type n.req_buffer == msg_stop && stops n))
        (handle_request p n)
unfolding handle_request raised
handle_request-watchdog p n e =
    Leads-map (handle_request p n)
      (if-elim
        (Leads (λ n'.
          raised chan_application_stop n'.effects
          ≡ (n.req_received && request_type n.req_buffer == msg_stop && stops n)))
        n.req_received
        (λ q.
          Leads-map (dispatch p (request_type n.req_buffer) (record n { req_received = false }))
            (dispatch-stops p (request_type n.req_buffer) (record n { req_received = false }) e)
            (λ n' h. h ∙ sym (ap (λ b. b && request_type n.req_buffer == msg_stop && stops n) q)))
        (λ q. ground arith))
      (λ n' h. (interrupts_lem n'.effects).1 ∙ h)
