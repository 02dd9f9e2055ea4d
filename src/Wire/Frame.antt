-- ===== src/Wire/Frame.antt =====
-- connections_tcp.go: frames of a length prefix and a body, over a byte stream.
pub mod RoundTrip
pub mod Truncated
use coalago.Base.{
  ℕ, zero, suc, ◌+◌, ◌-◌, ◌*◌, ◌/◌, ◌%◌, Bool, true, false, Option, none, some, List, [], ◌∷◌, ◌++◌,
  ltb, leb, ◌==◌, length, take, drop, if◌then◌else◌, bit_and,
}
use coalago.Wire.{put_uint16, put_uint32, uint16_of, uint32_of}

-- encodeLength
unfoldable pub encode_length : ℕ → List ℕ
encode_length n =
    if leb n 12
    then (n % 256) ∷ []
    else if leb n 268
    then 13 ∷ ((n - 13) % 256) ∷ []
    else if leb n 65804
    then 14 ∷ put_uint16 ((n - 269) % 0x1_0000)
    else 15 ∷ put_uint32 ((n - 65805) % 0x1_0000_0000)

-- The errors of package io that a read returns.
pub data IoError : Type 0 where
  eof unexpected_eof short_buffer : IoError

-- A read of a byte stream: its value, or its error, with what the stream still holds.
pub data Read {ℓ} (A : Type ℓ) : Type ℓ where
  done : A → List ℕ → Read A
  failed : IoError → List ℕ → Read A

infixl 5 ◌>>=◌
abbrev pub ◌>>=◌ {ℓ κ} : {A : Type ℓ} {B : Type κ} → Read A → (A → List ℕ → Read B) → Read B
done a s >>= f = f a s
failed e s >>= f = failed e s

-- io.ReadFull into a buffer of `n` bytes.
unfoldable pub read_full : ℕ → List ℕ → Read (List ℕ)
read_full n s =
    if leb n (length s)
    then done (take n s) (drop n s)
    else if length s == 0
    then failed IoError.eof []
    else failed IoError.unexpected_eof []

-- The numbers that decodeLength reads behind the first byte.
unfoldable pub length_of_1 : List ℕ → ℕ
length_of_1 (a ∷ []) = a + 13
length_of_1 bs = 0

unfoldable pub length_of_2 : List ℕ → ℕ
length_of_2 (a ∷ b ∷ []) = uint16_of a b + 269
length_of_2 bs = 0

unfoldable pub length_of_4 : List ℕ → ℕ
length_of_4 (a ∷ b ∷ c ∷ d ∷ []) = uint32_of a b c d + 65805
length_of_4 bs = 0

unfoldable pub first_byte : List ℕ → ℕ
first_byte (a ∷ []) = a
first_byte bs = 0

-- The switch of decodeLength on the low four bits of the first byte.
unfoldable pub decode_extended : ℕ → List ℕ → Read ℕ
unfolding length_of_1 length_of_2 length_of_4
decode_extended n s =
    if n == 13
    then (read_full 1 s >>= λ b s'. done (length_of_1 b) s')
    else if n == 14
    then (read_full 2 s >>= λ b s'. done (length_of_2 b) s')
    else if n == 15
    then (read_full 4 s >>= λ b s'. done (length_of_4 b) s')
    else done n s

-- decodeLength
unfoldable pub decode_length : List ℕ → Read ℕ
unfolding first_byte decode_extended read_full
decode_length s = read_full 1 s >>= λ first s'. decode_extended (bit_and (first_byte first) 0x0f) s'

-- ReadTcpFrame: the bytes put into a buffer of `size` bytes.
unfoldable pub read_tcp_frame : ℕ → List ℕ → Read (List ℕ)
read_tcp_frame size s = decode_length s >>= λ n s'.
    if ltb size n then failed IoError.short_buffer s' else read_full n s'

-- An io.Writer that takes `budget` more bytes and then fails.
pub record Writer : Type 0 where
  pub written : List ℕ
  pub budget : ℕ

-- One call of its Write: the writer after it, the count, and whether it failed.
unfoldable pub write : Writer → List ℕ → record { writer : Writer; count : ℕ; ok : Bool }
write w bs =
    if leb (length bs) w.budget
    then record {
      writer = record { written = w.written ++ bs; budget = w.budget - length bs };
      count = length bs;
      ok = true;
    }
    else record {
      writer = record { written = w.written ++ take w.budget bs; budget = 0 };
      count = w.budget;
      ok = false;
    }

-- WriteTcpFrame
unfoldable pub write_tcp_frame : Writer → List ℕ → record { writer : Writer; count : ℕ; ok : Bool }
write_tcp_frame w bs =
    let r1 = write w (encode_length (length bs)) in
    let r2 = write r1.writer bs in
    if r1.ok then record { writer = r2.writer; count = r1.count + r2.count; ok = r2.ok } else r1
