-- ===== src/Base/Bytes.antt =====
-- Little-endian integers inside byte arrays, as the cores (both little-endian) lay them out in
-- packed structs and copy them with `memcpy`.
use swarmit.Base.{ℕ, zero, suc, ◌+◌, ◌*◌, ◌/◌, ◌%◌, List, [], ◌∷◌, ◌++◌, get_or}

-- `*(uint16_t *)&bytes[i]` and `*(uint32_t *)&bytes[i]`
abbrev pub read_u16 : List ℕ → ℕ → ℕ
read_u16 bs i = get_or bs i 0 + 256 * get_or bs (i + 1) 0

abbrev pub read_u32 : List ℕ → ℕ → ℕ
read_u32 bs i =
    get_or bs i 0
    + 256 * get_or bs (i + 1) 0
    + 65536 * get_or bs (i + 2) 0
    + 16777216 * get_or bs (i + 3) 0

-- The bytes of a `uint16_t` and of a `uint32_t`, lowest first.
abbrev pub u16_bytes : ℕ → List ℕ
u16_bytes w = w % 256 ∷ w / 256 % 256 ∷ []

abbrev pub u32_bytes : ℕ → List ℕ
u32_bytes w = w % 256 ∷ w / 256 % 256 ∷ w / 65536 % 256 ∷ w / 16777216 % 256 ∷ []

abbrev pub u64_bytes : ℕ → List ℕ
u64_bytes w = u32_bytes w ++ u32_bytes (w / 4294967296)

-- `n` consecutive `uint32_t` from byte `i` on.
unfoldable pub read_words : List ℕ → ℕ → ℕ → List ℕ
read_words bs i zero = []
read_words bs i (suc n) = read_u32 bs i ∷ read_words bs (i + 4) n
