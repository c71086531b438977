-- ===== src/Single/Safety.antt =====
-- What a request can do in device/bootloader-single-core/Source/main.c.
use swarmit.Base.{ℕ, Bool, false, ◌≡◌, ◌⊎◌, ◌==◌, ◌||◌, arith, Leads, next}
use swarmit.Protocol.{
  ApplicationStatus, ready, running, programming, msg_start, msg_stop, msg_ota_start, msg_ota_chunk,
  request_type,
}
use swarmit.Net.{Platform}
use swarmit.Single.{SingleState}
use swarmit.Single.Request.{handle_request}

-- The messages that each status lets through.
abbrev pub allowed : ApplicationStatus → ℕ → Bool
allowed ready t = t == msg_start || t == msg_ota_start || t == msg_ota_chunk
allowed running t = t == msg_stop
allowed programming t = t == msg_stop || t == msg_ota_start || t == msg_ota_chunk
allowed _ t = false

-- A request that the status does not let through changes nothing but the flag that announced it.
pub single_request-dropped :
    (p : Platform) (s : SingleState)
    → allowed s.vars.status (request_type s.req_buffer) ≡ false
    → handle_request p s ≡ next (record s { req_received = false })
unfolding handle_request
single_request-dropped p s h = ground arith

-- A request changes the status only from ready to programming, by the start of an update.
pub single_request-status :
    (p : Platform) (s : SingleState)
    → Leads
        (λ s'.
          (s'.vars.status ≡ s.vars.status)
          ⊎ ((s.vars.status ≡ ready)
              × (s'.vars.status ≡ programming)
              × (request_type s.req_buffer ≡ msg_ota_start)))
        (handle_request p s)
unfolding handle_request
single_request-status p s = ground arith
