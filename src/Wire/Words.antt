-- ===== src/Wire/Words.antt =====
-- encodeInt and decodeInt are inverse on 32-bit words.
use coalago.Base.{ℕ, ◌≤◌, ◌<◌, ◌≡◌, refl, some, List, [], ◌∷◌, All, length, arith}
use coalago.Wire.{IsByte, encode_int, decode_int}

-- Every 32-bit word is read back from what encodeInt writes for it.
pub decode_int-encode_int : (v : ℕ) → v < 0x1_0000_0000 → decode_int (encode_int v) ≡ some v
unfolding encode_int decode_int
decode_int-encode_int v h = ground arith

-- encodeInt writes at most four elements, and each is a byte.
pub encode_int_shape : (v : ℕ) → All IsByte (encode_int v) × (length (encode_int v) ≤ 4)
unfolding encode_int
encode_int_shape v = ground arith

-- decodeInt succeeds exactly on at most four bytes.
pub decode_int_total : (bs : List ℕ) → length bs ≤ 4 → (v : ℕ) × (decode_int bs ≡ some v)
unfolding decode_int
decode_int_total [] h = (0, refl)
decode_int_total (a ∷ []) h = (_, refl)
decode_int_total (a ∷ b ∷ []) h = (_, refl)
decode_int_total (a ∷ b ∷ c ∷ []) h = (_, refl)
decode_int_total (a ∷ b ∷ c ∷ d ∷ []) h = (_, refl)
decode_int_total (a ∷ b ∷ c ∷ d ∷ e ∷ bs) h = absurd (omega arith)

-- What decodeInt returns for bytes is a 32-bit word.
pub decode_int-lt :
    (bs : List ℕ) (v : ℕ) → All IsByte bs → decode_int bs ≡ some v → v < 0x1_0000_0000
unfolding decode_int
decode_int-lt [] v h e = ground arith
decode_int-lt (a ∷ []) v h e = ground arith
decode_int-lt (a ∷ b ∷ []) v h e = ground arith
decode_int-lt (a ∷ b ∷ c ∷ []) v h e = ground arith
decode_int-lt (a ∷ b ∷ c ∷ d ∷ []) v h e = ground arith
decode_int-lt (a ∷ b ∷ c ∷ d ∷ x ∷ bs) v h e = cc
