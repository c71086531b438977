-- ===== src/Base/Decode.antt =====
-- Reading back the little-endian integers of a message.
use native.Mathlib.Nat.{suc-add}
use swarmit.Base.{
  ℕ, zero, suc, ◌+◌, ◌^◌, ◌<◌, ◌≡◌, refl, List, [], ◌∷◌, ◌++◌, arith, length, ap₂, ◌∙◌,
}
use swarmit.Base.Bytes.{read_u32, read_words, u32_bytes}

-- Words that fit 32 bits.
abbrev pub AllWords : List ℕ → Type 0
AllWords [] = Unit
AllWords (w ∷ ws) = (w < 2 ^ 32) × AllWords ws

abbrev pub words_bytes : List ℕ → List ℕ
words_bytes [] = []
words_bytes (w ∷ ws) = u32_bytes w ++ words_bytes ws

pub read_u32-bytes : (w : ℕ) (rest : List ℕ) → w < 2 ^ 32 → read_u32 (u32_bytes w ++ rest) 0 ≡ w
read_u32-bytes w rest h = omega arith

pub read_words-suc :
    (x : ℕ) (bs : List ℕ) (i n : ℕ) → read_words (x ∷ bs) (suc i) n ≡ read_words bs i n
unfolding read_words
read_words-suc x bs i zero = refl
read_words-suc x bs i (suc n) = ap₂ ◌∷◌ (simp suc-add) (rw suc-add (read_words-suc x bs (i + 4) n))

-- Reading behind a first part.
pub read_words-append :
    (pre bs : List ℕ) (n : ℕ) → read_words (pre ++ bs) (length pre) n ≡ read_words bs 0 n
read_words-append [] bs n = refl
read_words-append (x ∷ pre) bs n =
    read_words-suc x (pre ++ bs) (length pre) n ∙ read_words-append pre bs n

pub read_words-bytes :
    (ws rest : List ℕ) → AllWords ws → read_words (words_bytes ws ++ rest) 0 (length ws) ≡ ws
unfolding read_words
read_words-bytes [] rest h = refl
read_words-bytes (w ∷ ws) rest h = ap₂ ◌∷◌ (read_u32-bytes w [] h.0) (
    read_words-append (u32_bytes w) (words_bytes ws ++ rest) (length ws)
    ∙ read_words-bytes ws rest h.1)
