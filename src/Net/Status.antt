-- ===== src/Net/Status.antt =====
-- What a request does to the experiment status of device/network_core/Source/main.c, and in which
-- status it is served at all.
use swarmit.Base.{
  ℕ, Bool, false, ◌≡◌, ◌==◌, ◌||◌, Leads, fault, if-elim, ==_iff, arith, Outcome, next, stopped,
  Bool-cases, inl, inr,
}
use swarmit.Protocol.{
  ApplicationStatus, ready, running, stopping, resetting, programming, msg_start, msg_stop,
  msg_reset, msg_ota_start, msg_ota_chunk, msg_lh2_calibration, msg_lh2_capture, request_type,
}
use swarmit.Net.{Platform, NetState}
use swarmit.Net.Request.{
  on_start, on_stop, on_reset, on_ota_start, on_ota_chunk, on_lh2_calibration, on_lh2_capture,
  dispatch, handle_request,
}

-- The changes of status that a message may make.
pub data Edge : ℕ → ApplicationStatus → ApplicationStatus → Type 0 where
  stay : {t : ℕ} {a : ApplicationStatus} → Edge t a a
  stop_running : {t : ℕ} → t ≡ msg_stop → Edge t running stopping
  stop_resetting : {t : ℕ} → t ≡ msg_stop → Edge t resetting stopping
  stop_programming : {t : ℕ} → t ≡ msg_stop → Edge t programming stopping
  reset : {t : ℕ} → t ≡ msg_reset → Edge t ready resetting
  program : {t : ℕ} → t ≡ msg_ota_start → Edge t ready programming

ruleset edges = (stay, stop_running, stop_resetting, stop_programming, reset, program)

-- The messages that each status lets through.
abbrev pub allowed : ApplicationStatus → ℕ → Bool
allowed ready t =
    t == msg_start
    || t == msg_reset
    || t == msg_ota_start
    || t == msg_ota_chunk
    || t == msg_lh2_calibration
    || t == msg_lh2_capture
allowed running t = t == msg_stop
allowed stopping t = false
allowed resetting t = t == msg_stop
allowed programming t = t == msg_stop || t == msg_ota_start || t == msg_ota_chunk

on_start-status : (s : NetState) → (on_start s).shared.status ≡ s.shared.status
unfolding on_start
on_start-status s = ground arith

on_capture-status : (s : NetState) → (on_lh2_capture s).shared.status ≡ s.shared.status
unfolding on_lh2_capture
on_capture-status s = ground arith

on_stop-Edge :
    (t : ℕ) (s : NetState) → t ≡ msg_stop → Edge t s.shared.status (on_stop s).shared.status
unfolding on_stop
on_stop-Edge t s e = grind (arith, edges)

on_reset-Edge :
    (t : ℕ) (s : NetState) → t ≡ msg_reset → Edge t s.shared.status (on_reset s).shared.status
unfolding on_reset
on_reset-Edge t s e = grind (arith, edges)

on_ota_start-Edge :
    (t : ℕ) (s : NetState)
    → t ≡ msg_ota_start
    → Edge t s.shared.status (on_ota_start s).shared.status
unfolding on_ota_start
on_ota_start-Edge t s e = grind (arith, edges)

-- A chunk changes no status in the network core.
pub on_ota_chunk-status :
    (p : Platform) (s : NetState)
    → Leads (λ s'. s'.shared.status ≡ s.shared.status) (on_ota_chunk p s)
unfolding on_ota_chunk
on_ota_chunk-status p s = ground arith

on_lh2_calibration-status :
    (p : Platform) (s : NetState)
    → Leads (λ s'. s'.shared.status ≡ s.shared.status) (on_lh2_calibration p s)
unfolding on_lh2_calibration
on_lh2_calibration-status p s = ground arith

dispatch-Edge :
    (p : Platform) (t : ℕ) (s : NetState)
    → Leads (λ s'. Edge t s.shared.status s'.shared.status) (dispatch p t s)
unfolding dispatch
dispatch-Edge p t s =
    if-elim L (t == msg_start) (λ _. of_eq (on_start-status s))
      λ _.
        if-elim L (t == msg_stop) (λ e. on_stop-Edge t s ((==_iff t _).0 e))
          λ _.
            if-elim L (t == msg_reset) (λ e. on_reset-Edge t s ((==_iff t _).0 e))
              λ _.
                if-elim L (t == msg_ota_start) (λ e. on_ota_start-Edge t s ((==_iff t _).0 e))
                  λ _.
                    if-elim L (t == msg_ota_chunk) (λ _. kept _ (on_ota_chunk-status p s))
                      λ _.
                        if-elim L (t == msg_lh2_calibration)
                          (λ _. kept _ (on_lh2_calibration-status p s))
                          λ _.
                            if-elim L (t == msg_lh2_capture) (λ _. of_eq (on_capture-status s))
                              λ _. stay
  where
    L : Outcome NetState → Type 0
    L = Leads (λ s'. Edge t s.shared.status s'.shared.status)

    of_eq : {b : ApplicationStatus} → b ≡ s.shared.status → Edge t s.shared.status b
    of_eq e = rw e stay

    kept : (r : Outcome NetState) → Leads (λ s'. s'.shared.status ≡ s.shared.status) r → L r
    kept (next s') e = of_eq e
    kept (stopped s') e = of_eq e
    kept fault e = tt

-- Serving a request changes the experiment status only along the edges of its message: a stop from
-- running, resetting or programming to stopping, a reset from ready to resetting, the start of an
-- update from ready to programming. Any other message leaves the status alone.
pub handle_request-Edge :
    (p : Platform) (s : NetState)
    → Leads
        (λ s'. Edge (request_type s.req_buffer) s.shared.status s'.shared.status)
        (handle_request p s)
unfolding handle_request
handle_request-Edge p s = elim (Bool-cases s.req_received) [
  | inl e ↦ simp e (dispatch-Edge p (request_type s.req_buffer) (record s { req_received = false }))
  | inr e ↦ simp e stay
]

-- A request that the status does not let through is dropped: nothing of the state changes but the
-- flag that announced it.
pub handle_request-dropped :
    (p : Platform) (s : NetState)
    → allowed s.shared.status (request_type s.req_buffer) ≡ false
    → handle_request p s ≡ next (record s { req_received = false })
unfolding handle_request
handle_request-dropped p s h = ground arith
