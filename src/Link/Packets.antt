-- ===== src/Link/Packets.antt =====
-- The packets of an update over the air, as device/network_core/Source/main.c finds them in its
-- buffer.
use mathlib.Core.List.{append_assoc}
use swarmit.Base.{
  ℕ, zero, suc, ◌≤◌, ◌<◌, ◌^◌, ◌≡◌, refl, ◌∙◌, ap, true, List, [], ◌∷◌, ◌++◌, arith, length, take,
  drop, write_at, length-append, length-take, ==_iff,
}
use swarmit.Base.Bytes.{u32_bytes}
use swarmit.Base.Decode.{read_u32-bytes}
use swarmit.Base.Splice.{write_at-zero, take-append_exact}
use swarmit.Protocol.{
  msg_ota_start, msg_ota_chunk, request_type, ota_start_pkt, ota_chunk_pkt, chunk_offset,
}
use swarmit.Net.Request.{same_bytes, equal_bytes}

-- The packet that starts the update to an image of `size` bytes in `count` chunks.
abbrev pub start_packet : ℕ → ℕ → List ℕ
start_packet size count = msg_ota_start ∷ u32_bytes size ++ u32_bytes count

-- The packet of chunk `k`, with the first bytes of its hash.
abbrev pub chunk_packet : (List ℕ → List ℕ) → ℕ → List ℕ → List ℕ
chunk_packet sha256 k bytes =
    msg_ota_chunk ∷ u32_bytes k ++ (length bytes ∷ take 8 (sha256 bytes) ++ bytes)

same_bytes_refl : (xs : List ℕ) → same_bytes xs xs ≡ true
unfolding same_bytes
same_bytes_refl [] = refl
same_bytes_refl (x ∷ xs) = rw ((==_iff x x).1 refl, same_bytes_refl xs) refl

take-take : (m n : ℕ) (xs : List ℕ) → m ≤ n → take m (take n xs) ≡ take m xs
take-take zero n xs h = refl
take-take (suc m) zero xs h = absurd (omega arith)
take-take (suc m) (suc n) [] h = refl
take-take (suc m) (suc n) (x ∷ xs) h = ap (λ r. x ∷ r) (take-take m n xs (omega arith))

drop-append_exact : (n : ℕ) (xs ys : List ℕ) → length xs ≡ n → drop n (xs ++ ys) ≡ ys
drop-append_exact zero [] ys h = refl
drop-append_exact zero (x ∷ xs) ys h = absurd (omega arith)
drop-append_exact (suc n) [] ys h = absurd (omega arith)
drop-append_exact (suc n) (x ∷ xs) ys h = drop-append_exact n xs ys (omega arith)

module _ (buffer : List ℕ) (room : length buffer ≡ 255) where
  pub start_packet_lem :
      (size count : ℕ)
      → size < 2 ^ 32
      → count < 2 ^ 32
      → ((ota_start_pkt (write_at buffer 0 (start_packet size count))).image_size ≡ size)
        × ((ota_start_pkt (write_at buffer 0 (start_packet size count))).chunk_count ≡ count)
  start_packet_lem size count hs hc =
      rw (write_at-zero buffer (start_packet size count) (omega arith))
        (read_u32-bytes size [] hs, read_u32-bytes count [] hc)

  module _ (sha256 : List ℕ → List ℕ) (k : ℕ) (bytes : List ℕ) (small : length bytes ≤ 128)
      (hash : length (sha256 bytes) ≡ 32) where
    -- The buffer with the packet of the chunk.
    abbrev pub filled : List ℕ
    filled = write_at buffer 0 (chunk_packet sha256 k bytes)

    length-sha : length (take 8 (sha256 bytes)) ≡ 8
    length-sha = omega (arith, length-take 8 (sha256 bytes))

    abbrev sha : List ℕ
    sha = take 8 (sha256 bytes)

    abbrev rest : List ℕ
    rest = drop (length (chunk_packet sha256 k bytes)) buffer

    filled_lem :
        filled ≡ chunk_packet sha256 k bytes ++ drop (length (chunk_packet sha256 k bytes)) buffer
    filled_lem =
        write_at-zero buffer (chunk_packet sha256 k bytes)
          (omega (arith, length-append (take 8 (sha256 bytes)) bytes, length-sha))

    pub filled-index : k < 2 ^ 32 → (ota_chunk_pkt filled).index ≡ k
    filled-index h = rw filled_lem (read_u32-bytes k [] h)

    pub filled-size : (ota_chunk_pkt filled).chunk_size ≡ length bytes
    filled-size = rw filled_lem refl

    pub filled-type : request_type filled ≡ msg_ota_chunk
    filled-type = rw filled_lem refl

    pub filled-bytes : take (length bytes) (drop chunk_offset filled) ≡ bytes
    filled-bytes = rw filled_lem (
        ap (λ z. take (length bytes) (drop 8 z)) (append_assoc sha bytes rest)
        ∙ ap (take (length bytes)) (drop-append_exact 8 sha (bytes ++ rest) length-sha)
        ∙ take-append_exact (length bytes) bytes rest refl)

    pub filled-sha : equal_bytes 8 (sha256 bytes) (ota_chunk_pkt filled).sha ≡ true
    unfolding equal_bytes
    filled-sha = rw filled_lem (
        ap (same_bytes sha) (
          take-take 8 32 ((sha ++ bytes) ++ rest) (omega arith)
          ∙ ap (take 8) (append_assoc sha bytes rest)
          ∙ take-append_exact 8 sha (bytes ++ rest) length-sha)
        ∙ same_bytes_refl sha)
