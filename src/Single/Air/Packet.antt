-- ===== src/Single/Air/Packet.antt =====
-- A packet of an update, served by the program for one core and by the two cores of the other.
use swarmit.Base.{
  ℕ, ◌<◌, ◌≡◌, ◌≢◌, refl, ◌∙◌, ap, sym, subst, arith, true, false, List, ◌∷◌, length, write_at,
  Outcome, next, stopped, fault, ◌>>=◌, Returns, Returns-map, Returns->>=, ◌⊎◌, leb, ◌&&◌,
  length-write_at,
}
use swarmit.Protocol.{msg_status, msg_ota_start, msg_ota_chunk}
use swarmit.Nvmc.{Store}
use swarmit.Net.{Platform, NetState}
use swarmit.Net.Packet.{is_request}
use swarmit.App.{NetCore, IsNetCore, AppState}
use swarmit.Link.Robot.{Robot, with_net, then_app, update_blocks}
use swarmit.Link.Robot
use swarmit.Single.{SingleState}
use swarmit.Single.Request.{handle_packet, handle_request, dispatch}
use swarmit.Single.Loop.{handle_ota_start, handle_ota_chunk}
use swarmit.Single.Refine.{Same, Both, update-Same}
use swarmit.Base.Splice.{get_or-write_at_head}
use swarmit.Link.Round.{net_serves, arrived, net_serves-dispatch}
use swarmit.Single.Air.{serve_packet}
use swarmit.Single.Air.Request.{told, Follows, dispatch-Follows}

-- The two programs at the same place of an update, with the same packet in their buffers.
pub record Alike {L : Type 0} (s : SingleState) (r : Robot L) : Type 0 where
  pub same : Same s r.app
  pub buffer : s.req_buffer ≡ r.net.req_buffer
  pub room : length r.net.req_buffer ≡ 255

abbrev pub FollowsRobot : {L : Type 0} → Outcome SingleState → Outcome (Robot L) → Type 0
FollowsRobot o (next r) = Returns (λ s. Alike s r) o
FollowsRobot o (stopped r) = Unit
FollowsRobot o fault = Unit

pub FollowsRobot->>= :
    {L : Type 0} (o : Outcome SingleState) (f : SingleState → Outcome SingleState)
    (w : Outcome (Robot L)) (g : Robot L → Outcome (Robot L))
    → FollowsRobot o w
    → ((s : SingleState) (r : Robot L) → Alike s r → FollowsRobot (f s) (g r))
    → FollowsRobot (o >>= f) (w >>= g)
FollowsRobot->>= (next s) f (next r) g h k = k s r h
FollowsRobot->>= (stopped s) f (next r) g h k = absurd h
FollowsRobot->>= fault f (next r) g h k = absurd h
FollowsRobot->>= o f (stopped r) g h k = tt
FollowsRobot->>= o f fault g h k = tt

module _ (store : Store) where
  start-kept :
      (s : SingleState) → Returns (λ t. t.req_buffer ≡ s.req_buffer) (handle_ota_start store true s)
  unfolding handle_ota_start
  start-kept s = ground arith

  chunk-kept :
      (s : SingleState) → Returns (λ t. t.req_buffer ≡ s.req_buffer) (handle_ota_chunk store true s)
  unfolding handle_ota_chunk
  chunk-kept s = ground arith

  blocks-kept :
      (s : SingleState)
      → Returns
          (λ t. t.req_buffer ≡ s.req_buffer)
          (handle_ota_start store true s >>= handle_ota_chunk store true)
  blocks-kept s =
      Returns->>= (λ t. t.req_buffer ≡ s.req_buffer) _ (handle_ota_start store true s) _
        (start-kept s)
        (λ t h. Returns-map (handle_ota_chunk store true t) (chunk-kept t) (λ u k. k ∙ h))

with_net-FollowsRobot :
    {L : Type 0} (n : NetState) (o : Outcome SingleState) (w : Outcome (AppState L))
    → length n.req_buffer ≡ 255
    → Both o w
    → Returns (λ t. t.req_buffer ≡ n.req_buffer) o
    → FollowsRobot o (with_net n w)
with_net-FollowsRobot n (next s) (next a) l h k = record { same = h; buffer = k; room = l }
with_net-FollowsRobot n (next s) (stopped a) l h k = tt
with_net-FollowsRobot n (next s) fault l h k = tt
with_net-FollowsRobot n (stopped s) w l h k = absurd h
with_net-FollowsRobot n fault w l h k = absurd h

-- A packet that the program takes for a request lands in the buffer and is dispatched.
landed :
    (p : Platform) (type : ℕ) (bs : List ℕ) (s : SingleState)
    → (leb msg_status type && leb type msg_ota_chunk) ≡ true
    → 0 < length s.req_buffer
    → handle_packet p (type ∷ bs) s
      ≡ record s { req_buffer = write_at s.req_buffer 0 (type ∷ bs); req_received = true }
unfolding handle_packet
landed p type bs s h l = ground (arith, get_or-write_at_head s.req_buffer bs type 0 l)

-- The program with a packet in its buffer that it serves.
abbrev taken : List ℕ → SingleState → SingleState
taken packet s = record s { req_buffer = write_at s.req_buffer 0 packet; req_received = false }

dispatched :
    (p : Platform) (type : ℕ) (bs : List ℕ) (s : SingleState)
    → (leb msg_status type && leb type msg_ota_chunk) ≡ true
    → 0 < length s.req_buffer
    → handle_request p (handle_packet p (type ∷ bs) s) ≡ dispatch p type (taken (type ∷ bs) s)
unfolding handle_request
dispatched p type bs s h l =
    ap (handle_request p) (landed p type bs s h l)
    ∙ ap (λ y. dispatch p y (taken (type ∷ bs) s)) (get_or-write_at_head s.req_buffer bs type 0 l)

takes :
    (type : ℕ)
    → (type ≡ msg_ota_start) ⊎ (type ≡ msg_ota_chunk)
    → ((leb msg_status type && leb type msg_ota_chunk) ≡ true) × (is_request type ≡ true)
takes type h = ground arith

module _ {L : Type 0} (p : Platform) (store : Store) (answer : NetCore) (a : IsNetCore answer) where
  blocks-FollowsRobot :
      (o : Outcome SingleState) (w : Outcome NetState) (t : AppState L)
      → Follows o w t
      → FollowsRobot
          (o >>= handle_ota_start store true >>= handle_ota_chunk store true)
          (then_app (update_blocks p store answer) t w)
  unfolding update_blocks
  blocks-FollowsRobot (next s) (next n) t h =
      with_net-FollowsRobot n (handle_ota_start store true s >>= handle_ota_chunk store true)
        (update_blocks p store answer (told n t)) h.2 (update-Same a store s (told n t) h.0)
        (Returns-map (handle_ota_start store true s >>= handle_ota_chunk store true)
          (blocks-kept store s) (λ u k. k ∙ h.1))
  blocks-FollowsRobot (stopped s) (next n) t h = absurd h
  blocks-FollowsRobot fault (next n) t h = absurd h
  blocks-FollowsRobot o (stopped n) t h = tt
  blocks-FollowsRobot o fault t h = tt

  -- A packet of an update, served by the one core and by the two.
  pub packet-FollowsRobot :
      (type : ℕ) (bs : List ℕ) (s : SingleState) (r : Robot L)
      → (type ≡ msg_ota_start) ⊎ (type ≡ msg_ota_chunk)
      → p.metrics_probe ≢ type
      → Alike s r
      → FollowsRobot
          (serve_packet p store (type ∷ bs) s)
          (Robot.serve_packet p store answer (type ∷ bs) r)
  unfolding serve_packet Robot.serve_packet net_serves
  packet-FollowsRobot type bs s r h ne q =
      subst
        (λ o.
          FollowsRobot (o >>= handle_ota_start store true >>= handle_ota_chunk store true)
            (then_app (update_blocks p store answer) r.app (net_serves p (type ∷ bs) r)))
        (sym (dispatched p type bs s (takes type h).0 (omega (arith, ap length q.buffer, q.room))))
        (subst
          (λ w.
            FollowsRobot
              (dispatch p type (taken (type ∷ bs) s)
                >>= handle_ota_start store true
                >>= handle_ota_chunk store true)
              (then_app (update_blocks p store answer) r.app w))
          (sym (net_serves-dispatch p type bs r (takes type h).1 ne (omega (arith, q.room))))
          (blocks-FollowsRobot _ _ r.app (
            dispatch-Follows p (taken (type ∷ bs) s) (arrived (type ∷ bs) r) r.app
              (record {
                base_addr = q.same.base_addr;
                ota_start_request = q.same.ota_start_request;
                ota_require_erase = q.same.ota_require_erase;
                ota_chunk_request = q.same.ota_chunk_request;
                ota = q.same.ota;
                status = q.same.status;
                nvmc = q.same.nvmc;
              })
              (ap (λ b. write_at b 0 (type ∷ bs)) q.buffer)
              (length-write_at r.net.req_buffer 0 (type ∷ bs) ∙ q.room) refl type h)))
