-- ===== src/Net/Session.antt =====
-- A calibration over the air, end to end: the packets of a session through the receive path and the
-- main loop of device/network_core/Source/main.c.
use swarmit.Base.{
  ◌^◌, subst, ℕ, suc, ◌*◌, ◌≤◌, ◌<◌, ◌≡◌, ◌≢◌, refl, ◌∙◌, ap, true, false, List, [], ◌∷◌, ◌++◌,
  arith, length, Outcome, next, write_at,
}
use swarmit.Base.Bytes.{read_words, u32_bytes}
use swarmit.Base.Decode.{AllWords, words_bytes, read_u32-bytes, read_words-bytes, read_words-append}
use swarmit.Base.Splice.{write_at-zero, get_or-write_at_head}
use swarmit.Protocol.{
  ready, msg_lh2_calibration, Lh2CalibrationData, lh2_calibration_data, request_type,
}
use swarmit.Net.{Platform, NetState}
use swarmit.Net.Packet.{handle_packet, is_request}
use swarmit.Net.Config.{commit_config_and_reboot}
use swarmit.Net.Request.{store_matrix, handle_request, dispatch, on_lh2_calibration}

-- The packet that carries matrix `i` of `n`.
abbrev pub calibration_packet : ℕ → ℕ → List ℕ → List ℕ
calibration_packet n i m = msg_lh2_calibration ∷ u32_bytes n ++ (u32_bytes i ++ words_bytes m)

abbrev pub calibration_of : ℕ → ℕ → List ℕ → Lh2CalibrationData
calibration_of n i m = record { homography_count = n; homography_index = i; homography = m }

decode :
    (n i : ℕ) (m rest : List ℕ)
    → n < 2 ^ 32
    → i < 2 ^ 32
    → length m ≡ 9
    → AllWords m
    → lh2_calibration_data (calibration_packet n i m ++ rest) ≡ calibration_of n i m
decode n i m rest hn hi hm hw = λ j. record {
  homography_count = read_u32-bytes n [] hn j;
  homography_index = read_u32-bytes i [] hi j;
  homography = words j;
}
  where
    words : read_words (calibration_packet n i m ++ rest) 9 9 ≡ m
    words =
        read_words-append (msg_lh2_calibration ∷ u32_bytes n ++ u32_bytes i) (words_bytes m ++ rest)
          9
        ∙ subst (λ k. read_words (words_bytes m ++ rest) 0 k ≡ m) hm (read_words-bytes m rest hw)

-- One packet, received and served.
pub serve : Platform → List ℕ → NetState → Outcome NetState
serve p packet s = handle_request p (handle_packet p p.broadcast_address packet s)

-- A packet of the right type lands in the request buffer and is announced.
pub received :
    (p : Platform) (type : ℕ) (bs : List ℕ) (s : NetState)
    → is_request type ≡ true
    → p.metrics_probe ≢ type
    → 0 < length s.req_buffer
    → handle_packet p p.broadcast_address (type ∷ bs) s
      ≡ record s { req_buffer = write_at s.req_buffer 0 (type ∷ bs); req_received = true }
unfolding handle_packet
received p type bs s r ne h = ground (arith, get_or-write_at_head s.req_buffer bs type 0 h)

-- Serving a matrix of a calibration in ready, the last one or another.
served_more :
    (p : Platform) (n i : ℕ) (m : List ℕ) (s : NetState)
    → request_type s.req_buffer ≡ msg_lh2_calibration
    → lh2_calibration_data s.req_buffer ≡ calibration_of n i m
    → s.req_received ≡ true
    → s.shared.status ≡ ready
    → suc i < n
    → n ≤ 16
    → handle_request p s
      ≡ next
          (record s { req_received = false; config = store_matrix (calibration_of n i m) s.config })
unfolding handle_request dispatch on_lh2_calibration
served_more p n i m s t d r st hi hn = ground arith

served_last :
    (p : Platform) (n i : ℕ) (m : List ℕ) (s : NetState)
    → request_type s.req_buffer ≡ msg_lh2_calibration
    → lh2_calibration_data s.req_buffer ≡ calibration_of n i m
    → s.req_received ≡ true
    → s.shared.status ≡ ready
    → n ≡ suc i
    → n ≤ 16
    → handle_request p s
      ≡ commit_config_and_reboot p.store
          (record s { req_received = false; config = store_matrix (calibration_of n i m) s.config })
unfolding handle_request dispatch on_lh2_calibration
served_last p n i m s t d r st e hn = ground arith

-- The state after packet `i` of `n` was stored.
abbrev pub stored : ℕ → ℕ → List ℕ → NetState → NetState
stored n i m s = record s {
  req_buffer = write_at s.req_buffer 0 (calibration_packet n i m);
  req_received = false;
  config = store_matrix (calibration_of n i m) s.config;
}

abbrev pub IsMatrix : List ℕ → Type 0
IsMatrix m = (length m ≡ 9) × AllWords m

length-words_bytes : (ws : List ℕ) → length (words_bytes ws) ≡ 4 * length ws
length-words_bytes [] = omega arith
length-words_bytes (w ∷ ws) = omega (arith, length-words_bytes ws)

module _ (p : Platform) (n i : ℕ) (m : List ℕ) (s : NetState)
    (ne : p.metrics_probe ≢ msg_lh2_calibration) (room : length s.req_buffer ≡ 255)
    (st : s.shared.status ≡ ready) (hm : IsMatrix m) (hn : n ≤ 16) where
  decoded :
      i < n
      → lh2_calibration_data (write_at s.req_buffer 0 (calibration_packet n i m))
        ≡ calibration_of n i m
  decoded hi =
      ap lh2_calibration_data (
        write_at-zero s.req_buffer (calibration_packet n i m) (omega (arith, length-words_bytes m)))
      ∙ decode n i m _ (omega arith) (omega arith) hm.0 hm.1

  typed : request_type (write_at s.req_buffer 0 (calibration_packet n i m)) ≡ msg_lh2_calibration
  typed = get_or-write_at_head s.req_buffer _ msg_lh2_calibration 0 (omega arith)

  -- A packet before the last one is stored, and nothing else happens.
  pub serve_more : suc i < n → serve p (calibration_packet n i m) s ≡ next (stored n i m s)
  unfolding serve
  serve_more hi =
      ap (handle_request p) (received p msg_lh2_calibration _ s refl ne (omega arith))
      ∙ served_more p n i m
          (record s {
            req_buffer = write_at s.req_buffer 0 (calibration_packet n i m);
            req_received = true;
          })
          typed (decoded (omega arith)) refl st hi hn

  -- The last packet is stored and the configuration committed.
  pub serve_last :
      n ≡ suc i
      → serve p (calibration_packet n i m) s ≡ commit_config_and_reboot p.store (stored n i m s)
  unfolding serve
  serve_last e =
      ap (handle_request p) (received p msg_lh2_calibration _ s refl ne (omega arith))
      ∙ served_last p n i m
          (record s {
            req_buffer = write_at s.req_buffer 0 (calibration_packet n i m);
            req_received = true;
          })
          typed (decoded (omega arith)) refl st e hn
