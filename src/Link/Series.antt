-- ===== src/Link/Series.antt =====
-- The chunks of an update over the air in order, each as often as the sender repeats it.
use swarmit.Base.{
  ℕ, zero, suc, ◌+◌, ◌<◌, ◌≡◌, ◌≢◌, subst, List, arith, length, ◌>>=◌, Returns, Returns->>=,
}
use swarmit.Protocol.{msg_ota_chunk}
use swarmit.Nvmc.{Store, Flash, app_geometry}
use swarmit.Nvmc.Laws.{IsController}
use swarmit.Net.{Platform}
use swarmit.App.{NetCore, IsNetCore}
use swarmit.App.Image.{Fits}
use swarmit.Link.Packets.{chunk_packet}
use swarmit.Link.Robot.{Robot, serve_packet, serve_again, serve_chunks}
use swarmit.Link.Chunks.{image_of, OnAir}
use swarmit.Link.Delivery.{serve_packet-fresh, serve_packet-again}

module _ {L : Type 0} (p : Platform) {store : Store} {answer : NetCore}
    (c : IsController app_geometry store) (a : IsNetCore answer) (bytes : ℕ → List ℕ) (count : ℕ)
    (fits : Fits (image_of bytes count)) (f : Flash)
    (hash : (bs : List ℕ) → length (p.sha256 bs) ≡ 32) (ne : p.metrics_probe ≢ msg_ota_chunk) where
  serve_again_lem :
      (k n : ℕ) (r : Robot L)
      → k < count
      → OnAir (image_of bytes count) f (k + 1) r
      → Returns
          (OnAir (image_of bytes count) f (k + 1))
          (serve_again p store answer (chunk_packet p.sha256 k (bytes k)) n r)
  unfolding serve_again
  serve_again_lem k zero r hk o = o
  serve_again_lem k (suc n) r hk o =
      Returns->>= (OnAir (image_of bytes count) f (k + 1)) (OnAir (image_of bytes count) f (k + 1))
        (serve_packet p store answer (chunk_packet p.sha256 k (bytes k)) r)
        (serve_again p store answer (chunk_packet p.sha256 k (bytes k)) n)
        (serve_packet-again p c a bytes count fits f hash ne k r hk o)
        (λ r' o'. serve_again_lem k n r' hk o')

  -- Every chunk from `k` on is stored, however often each comes.
  pub serve_chunks_lem :
      (repeats : ℕ → ℕ) (k n : ℕ) (r : Robot L)
      → k + n ≡ count
      → OnAir (image_of bytes count) f k r
      → Returns
          (OnAir (image_of bytes count) f count)
          (serve_chunks p store answer bytes repeats k n r)
  unfolding serve_chunks
  serve_chunks_lem repeats k zero r e o =
      subst (λ z. OnAir (image_of bytes count) f z r) (omega (arith, e)) o
  serve_chunks_lem repeats k (suc n) r e o =
      Returns->>= (OnAir (image_of bytes count) f (k + 1)) (OnAir (image_of bytes count) f count)
        (serve_packet p store answer (chunk_packet p.sha256 k (bytes k)) r
          >>= serve_again p store answer (chunk_packet p.sha256 k (bytes k)) (repeats k))
        (serve_chunks p store answer bytes repeats (k + 1) n)
        (Returns->>= (OnAir (image_of bytes count) f (k + 1))
          (OnAir (image_of bytes count) f (k + 1))
          (serve_packet p store answer (chunk_packet p.sha256 k (bytes k)) r)
          (serve_again p store answer (chunk_packet p.sha256 k (bytes k)) (repeats k))
          (serve_packet-fresh p c a bytes count fits f hash ne k r (omega (arith, e)) o)
          (λ r' o'. serve_again_lem k (repeats k) r' (omega (arith, e)) o'))
        (λ r' o'. serve_chunks_lem repeats (k + 1) n r' (omega (arith, e)) o')
