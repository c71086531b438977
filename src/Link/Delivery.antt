-- ===== src/Link/Delivery.antt =====
-- A chunk of an update over the air, served by both cores, the first time and again.
use swarmit.Base.{
  ℕ, ◌+◌, ◌*◌, ◌/◌, ◌≤◌, ◌<◌, ◌≡◌, ◌≢◌, ◌⊎◌, inl, inr, refl, ◌∙◌, ap, sym, subst, true, List, arith,
  length, take, drop, write_at, length-write_at, take-write_at, Returns, dec_lt,
}
use swarmit.Base.Splice.{write_at-zero, get_or-append_head}
use swarmit.Shared.{chan_ota_chunk}
use swarmit.Protocol.{programming, msg_ota_chunk, ota_chunk_pkt, chunk_offset, ready}
use swarmit.Nvmc.{Store, Flash, app_geometry}
use swarmit.Nvmc.Laws.{IsController}
use swarmit.Net.{Platform, NetState, send_task}
use swarmit.Net.Request.{set_ota, equal_bytes}
use swarmit.App.{NetCore, IsNetCore}
use swarmit.App.Ota.{chunk_word}
use swarmit.App.Image.{arrive, Fits}
use swarmit.App.Progress.{arrive-fresh, arrive-again}
use swarmit.Link.{checked, verify_chunk-checked, on_ota_chunk-fresh}
use swarmit.Link.Packets.{chunk_packet, filled-sha}
use swarmit.Link.Robot.{Robot, with_net, then_app, update_blocks, serve_packet}
use swarmit.Link.Chunks.{
  image_of, OnAir, on_ota_chunk-again, arrived-OnAir, got, index, size, payload, reached,
}

-- A buffer holds the words of the bytes at its front.
chunk_word-write_at :
    (buffer bs : List ℕ) (j : ℕ)
    → length bs ≤ length buffer
    → j < length bs / 4
    → chunk_word (write_at buffer 0 bs) j ≡ chunk_word bs j
chunk_word-write_at buffer bs j h hj =
    rw
      (
        write_at-zero buffer bs h,
        get_or-append_head bs (drop (length bs) buffer) (4 * j) 0 (omega arith),
        get_or-append_head bs (drop (length bs) buffer) (4 * j + 1) 0 (omega arith),
        get_or-append_head bs (drop (length bs) buffer) (4 * j + 2) 0 (omega arith),
        get_or-append_head bs (drop (length bs) buffer) (4 * j + 3) 0 (omega arith),
      )
      refl

module _ {L : Type 0} (p : Platform) {store : Store} {answer : NetCore}
    (c : IsController app_geometry store) (a : IsNetCore answer) (bytes : ℕ → List ℕ) (count : ℕ)
    (fits : Fits (image_of bytes count)) (f : Flash)
    (hash : (bs : List ℕ) → length (p.sha256 bs) ≡ 32) (ne : p.metrics_probe ≢ msg_ota_chunk) where
  pub serve_packet-fresh :
      (k : ℕ) (r : Robot L)
      → k < count
      → OnAir (image_of bytes count) f k r
      → Returns
          (OnAir (image_of bytes count) f (k + 1))
          (serve_packet p store answer (chunk_packet p.sha256 k (bytes k)) r)
  unfolding serve_packet update_blocks
  serve_packet-fresh k r hk o =
      subst (Returns (OnAir (image_of bytes count) f (k + 1))) (sym step) (
        arrived-OnAir p c a (image_of bytes count) fits f k (length (bytes k)) chunk r.app n1 o.idle
          (length-write_at r.net.req_buffer 0 (chunk_packet p.sha256 k (bytes k)) ∙ o.room)
          (length-write_at r.app.shared.ota.chunk 0 (bytes k) ∙ o.buffer)
          (arrive-fresh c a (image_of bytes count) fits f k chunk r.app hk
            (λ j hj. chunk_word-write_at r.app.shared.ota.chunk (bytes k) j (omega arith) hj)
            o.progress))
    where
      t : NetState
      t = got p c a bytes count fits f hash ne k r hk o.room o.buffer

      here : (ota_chunk_pkt t.req_buffer).index ≡ k
      here = index p c a bytes count fits f hash ne k r hk o.room o.buffer

      size_lem : (ota_chunk_pkt t.req_buffer).chunk_size ≡ length (bytes k)
      size_lem = size p c a bytes count fits f hash ne k r hk o.room o.buffer

      bytes_lem :
          take (ota_chunk_pkt t.req_buffer).chunk_size (drop chunk_offset t.req_buffer) ≡ bytes k
      bytes_lem = payload p c a bytes count fits f hash ne k r hk o.room o.buffer

      chunk : List ℕ
      chunk = write_at r.app.shared.ota.chunk 0 (bytes k)

      t1 : NetState
      t1 = set_ota (record t.shared.ota { chunk_index = (ota_chunk_pkt t.req_buffer).index }) t

      n1 : NetState
      n1 = checked p t1

      digest :
          equal_bytes 8
            (p.sha256 (
              take (ota_chunk_pkt t.req_buffer).chunk_size (
                write_at r.app.shared.ota.chunk 0
                  (take (ota_chunk_pkt t.req_buffer).chunk_size (drop chunk_offset t.req_buffer)))))
            (ota_chunk_pkt t.req_buffer).sha
          ≡ true
      digest =
          ap
            (λ z.
              equal_bytes 8
                (p.sha256 (
                  take (ota_chunk_pkt t.req_buffer).chunk_size
                    (write_at r.app.shared.ota.chunk 0 z)))
                (ota_chunk_pkt t.req_buffer).sha)
            bytes_lem
          ∙ ap (λ z. equal_bytes 8 (p.sha256 (take z chunk)) (ota_chunk_pkt t.req_buffer).sha)
              size_lem
          ∙ ap (λ z. equal_bytes 8 (p.sha256 z) (ota_chunk_pkt t.req_buffer).sha)
              (take-write_at r.app.shared.ota.chunk (bytes k)
                (omega (arith, o.buffer, fits.sizes k)))
          ∙ filled-sha r.net.req_buffer o.room p.sha256 k (bytes k) (fits.sizes k) (hash (bytes k))

      step :
          serve_packet p store answer (chunk_packet p.sha256 k (bytes k)) r
          ≡ with_net n1 (update_blocks p store answer (arrive k (length (bytes k)) chunk r.app))
      step =
          ap (then_app (update_blocks p store answer) r.app) (
            reached p c a bytes count fits f hash ne k r hk o.room o.buffer
            ∙ on_ota_chunk-fresh p t (inl (o.progress.busy hk))
                (omega (arith, here, o.progress.chunk_count, hk))
                (λ e. o.progress.fresh k (omega arith) hk (e ∙ here))
            ∙ verify_chunk-checked p t1 (omega (arith, size_lem, fits.sizes k))
                (length-write_at r.net.req_buffer 0 (chunk_packet p.sha256 k (bytes k)) ∙ o.room)
                digest)
          ∙ ap
              (λ z. with_net n1 (
                update_blocks p store answer (
                  arrive (ota_chunk_pkt t.req_buffer).index (ota_chunk_pkt t.req_buffer).chunk_size
                    (write_at r.app.shared.ota.chunk 0 z) r.app)))
              bytes_lem
          ∙ ap
              (λ z. with_net n1 (
                update_blocks p store answer
                  (arrive (ota_chunk_pkt t.req_buffer).index z chunk r.app)))
              size_lem
          ∙ ap
              (λ z.
                with_net n1
                  (update_blocks p store answer (arrive z (length (bytes k)) chunk r.app)))
              here

  pub serve_packet-again :
      (k : ℕ) (r : Robot L)
      → k < count
      → OnAir (image_of bytes count) f (k + 1) r
      → Returns
          (OnAir (image_of bytes count) f (k + 1))
          (serve_packet p store answer (chunk_packet p.sha256 k (bytes k)) r)
  unfolding serve_packet update_blocks
  serve_packet-again k r hk o =
      subst (Returns (OnAir (image_of bytes count) f (k + 1))) (sym step) (
        arrived-OnAir p c a (image_of bytes count) fits f k r.app.shared.ota.chunk_size
          r.app.shared.ota.chunk r.app
          (send_task chan_ota_chunk
            (set_ota (record t.shared.ota { chunk_index = (ota_chunk_pkt t.req_buffer).index }) t))
          o.idle (length-write_at r.net.req_buffer 0 (chunk_packet p.sha256 k (bytes k)) ∙ o.room)
          o.buffer
          (arrive-again c a (image_of bytes count) fits f k r.app.shared.ota.chunk_size
            r.app.shared.ota.chunk r.app hk o.progress))
    where
      t : NetState
      t = got p c a bytes count fits f hash ne k r hk o.room o.buffer

      here : (ota_chunk_pkt t.req_buffer).index ≡ k
      here = index p c a bytes count fits f hash ne k r hk o.room o.buffer

      status : (r.app.shared.status ≡ programming) ⊎ (r.app.shared.status ≡ ready)
      status = elim (dec_lt (k + 1) count) [
        | yes q ↦ inl (o.progress.busy q)
        | no q ↦ inr (o.progress.done (omega arith) (omega arith))
      ]

      step :
          serve_packet p store answer (chunk_packet p.sha256 k (bytes k)) r
          ≡ with_net
              (send_task chan_ota_chunk (
                set_ota
                  (record t.shared.ota { chunk_index = (ota_chunk_pkt t.req_buffer).index })
                  t))
              (update_blocks p store answer
                (arrive k r.app.shared.ota.chunk_size r.app.shared.ota.chunk r.app))
      step =
          ap (then_app (update_blocks p store answer) r.app) (
            reached p c a bytes count fits f hash ne k r hk o.room o.buffer
            ∙ on_ota_chunk-again p t status (omega (arith, here, o.progress.chunk_count, hk))
                (omega (arith, here, o.progress.acked (omega arith))))
          ∙ ap
              (λ z.
                with_net
                  (send_task chan_ota_chunk (
                    set_ota
                      (record t.shared.ota { chunk_index = (ota_chunk_pkt t.req_buffer).index }) t))
                  (update_blocks p store answer
                    (arrive z r.app.shared.ota.chunk_size r.app.shared.ota.chunk r.app)))
              here
