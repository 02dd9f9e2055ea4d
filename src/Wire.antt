-- ===== src/Wire.antt =====
-- Byte strings of numbers: encodeInt and decodeInt (common.go), encoding/binary's big-endian words.
pub mod Words
pub mod Frame
use coalago.Base.{
  ℕ, ◌+◌, ◌*◌, ◌/◌, ◌%◌, ◌<◌, Option, none, some, List, [], ◌∷◌, ltb, ◌==◌, if◌then◌else◌,
}

abbrev pub IsByte : ℕ → Type 0
IsByte b = b < 256

-- binary.BigEndian.PutUint16 and PutUint32
abbrev pub put_uint16 : ℕ → List ℕ
put_uint16 v = (v / 256 % 256) ∷ (v % 256) ∷ []

abbrev pub put_uint32 : ℕ → List ℕ
put_uint32 v = (v / 0x100_0000 % 256) ∷ (v / 0x1_0000 % 256) ∷ (v / 256 % 256) ∷ (v % 256) ∷ []

-- binary.BigEndian.Uint16 and Uint32, of the bytes
abbrev pub uint16_of : ℕ → ℕ → ℕ
uint16_of a b = a * 256 + b

abbrev pub uint32_of : ℕ → ℕ → ℕ → ℕ → ℕ
uint32_of a b c d = ((a * 256 + b) * 256 + c) * 256 + d

-- encodeInt
unfoldable pub encode_int : ℕ → List ℕ
encode_int v =
    if v == 0
    then []
    else if ltb v 256
    then (v % 256) ∷ []
    else if ltb v 65536
    then put_uint16 (v % 65536)
    else put_uint32 v

-- decodeInt: the bytes are copied to the right end of four zero bytes; `none` is its error.
unfoldable pub decode_int : List ℕ → Option ℕ
decode_int [] = some (uint32_of 0 0 0 0)
decode_int (a ∷ []) = some (uint32_of 0 0 0 a)
decode_int (a ∷ b ∷ []) = some (uint32_of 0 0 a b)
decode_int (a ∷ b ∷ c ∷ []) = some (uint32_of 0 a b c)
decode_int (a ∷ b ∷ c ∷ d ∷ []) = some (uint32_of a b c d)
decode_int (a ∷ b ∷ c ∷ d ∷ e ∷ bs) = none
