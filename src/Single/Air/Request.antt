-- ===== src/Single/Air/Request.antt =====
-- A request of an update in the program for one core, next to the network core of the other
-- (device/bootloader-single-core/Source/main.c, device/network_core/Source/main.c).
use swarmit.Base.{
  ℕ, ◌≡◌, sym, subst, arith, [], length, Outcome, next, stopped, fault, Returns, ◌⊎◌, inl, inr,
}
use swarmit.Protocol.{msg_ota_start, msg_ota_chunk}
use swarmit.Net.{Platform, NetState}
use swarmit.Net.Request
use swarmit.App.{AppState}
use swarmit.App.Loop.{ipc_irq_handler}
use swarmit.Link.{raised, events_of}
use swarmit.Single.{SingleState}
use swarmit.Single.Request.{on_ota_start, on_ota_chunk, verify_chunk, dispatch}
use swarmit.Single.Refine.{Same}

-- What the application core has once the network core has come to `n`.
abbrev pub told : {L : Type 0} → NetState → AppState L → AppState L
told n a = ipc_irq_handler (events_of n.effects) (record a { shared = n.shared })

module _ {L : Type 0} (s : SingleState) (n : NetState) (a : AppState L)
    (q : Same s (record a { shared = n.shared })) (b : s.req_buffer ≡ n.req_buffer)
    (e : n.effects ≡ []) where
  start-Same : Same (on_ota_start s) (told (Request.on_ota_start n) a)
  unfolding on_ota_start Request.on_ota_start ipc_irq_handler events_of raised
  start-Same = grind (arith, q.base_addr, q.status, q.ota, b, e)

start-buffer :
    (s : SingleState) (n : NetState)
    → s.req_buffer ≡ n.req_buffer
    → length n.req_buffer ≡ 255
    → ((on_ota_start s).req_buffer ≡ (Request.on_ota_start n).req_buffer)
      × (length (Request.on_ota_start n).req_buffer ≡ 255)
unfolding on_ota_start Request.on_ota_start
start-buffer s n b l = ground (arith, b, l)

-- The one core comes as far as the network core, and is asked for the same.
abbrev pub Follows : {L : Type 0} → Outcome SingleState → Outcome NetState → AppState L → Type 0
Follows o (next n) a =
    Returns (λ s. Same s (told n a) × (s.req_buffer ≡ n.req_buffer) × (length n.req_buffer ≡ 255)) o
Follows o (stopped n) a = Unit
Follows o fault a = Unit

module _ {L : Type 0} (p : Platform) (s : SingleState) (n : NetState) (a : AppState L)
    (q : Same s (record a { shared = n.shared })) (b : s.req_buffer ≡ n.req_buffer)
    (l : length n.req_buffer ≡ 255) (e : n.effects ≡ []) where
  verify-Follows : Follows (verify_chunk p s) (Request.verify_chunk p n) a
  unfolding verify_chunk Request.verify_chunk ipc_irq_handler events_of raised
  verify-Follows = grind (arith, q.base_addr, q.status, q.ota, b, l, e)

  chunk-Follows : Follows (on_ota_chunk p s) (Request.on_ota_chunk p n) a
  unfolding on_ota_chunk Request.on_ota_chunk verify_chunk Request.verify_chunk ipc_irq_handler
      events_of raised
  chunk-Follows = grind (arith, q.base_addr, q.status, q.ota, b, l, e)

  pub dispatch-Follows :
      (type : ℕ)
      → (type ≡ msg_ota_start) ⊎ (type ≡ msg_ota_chunk)
      → Follows (dispatch p type s) (Request.dispatch p type n) a
  unfolding dispatch Request.dispatch
  dispatch-Follows type (inl h) =
      subst (λ y. Follows (dispatch p y s) (Request.dispatch p y n) a) (sym h)
        (start-Same s n a q b e, (start-buffer s n b l).0, (start-buffer s n b l).1)
  dispatch-Follows type (inr h) =
      subst (λ y. Follows (dispatch p y s) (Request.dispatch p y n) a) (sym h) chunk-Follows
