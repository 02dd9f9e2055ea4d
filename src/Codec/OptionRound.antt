-- ===== src/Codec/OptionRound.antt =====
-- One option of a datagram: deserialize reads back the bytes that Serialize wrote for it.
use mathlib.Core.List.{append_assoc}
use coalago.Base.{
  ℕ, ◌+◌, ◌-◌, ◌*◌, ◌/◌, ◌%◌, ◌≤◌, ◌<◌, ◌≡◌, refl, ◌∙◌, false, Option, none, some, List, [], ◌∷◌,
  ◌++◌, length, leb, le→leb, ◌==◌, arith, ◌≢◌, take-append_length, drop-append_length,
  length-append, bit_and, if◌then◌else◌,
}
use coalago.Base.Bits.{join_nibbles, low_nibble}
use coalago.Base.Int.{pos, sub_ℕ}
use coalago.Codec.{value_to_bytes, option_header_value, option_header, extended, option_bytes}
use coalago.Codec.Deserialize.{
  Kind, is_int_code, is_string_code, kind, Extended, read_extended, Round, add_value, take_option,
  after_delta, round,
}
use coalago.Options.{Value, CoapOption}
use coalago.Wire.{decode_int}
use coalago.Wire.Words.{decode_int_total}

-- The header value of a delta or a length.
abbrev header_of : ℕ → ℕ
header_of v = if leb v 12 then v else if leb v 268 then 13 else 14

header_of-option_header_value :
    (v : ℕ) → v ≤ 65804 → (option_header_value (pos v)).0 ≡ pos (header_of v)
unfolding option_header_value
header_of-option_header_value v h = ground arith

header_of-le : (v : ℕ) → header_of v ≤ 14
header_of-le v = ground arith

read_extended-extended :
    (v : ℕ) (rest : List ℕ)
    → v < 0x1_0000
    → read_extended (header_of v) (extended (pos (header_of v)) v ++ rest) ≡ Extended.value v rest
unfolding read_extended extended
read_extended-extended v rest h = ground arith

option_header-eq : (d l : ℕ) → d ≤ 14 → l ≤ 14 → option_header (pos d) (pos l) ≡ d * 16 + l
unfolding option_header
option_header-eq d l hd hl =
    let ed : d % 256 ≡ d = omega arith in
    let el : l % 256 ≡ l = omega arith in rw (ed, el) (join_nibbles d l (omega arith) (omega arith))

code_bound : (c : ℕ) → kind c ≢ Kind.unknown → c < 0x1_0000
unfolding kind is_int_code is_string_code
code_bound c h = ground arith

-- An option of which Serialize can write a value that deserialize accepts: its code is one of those
-- that deserialize knows, the value has less than 2 ^ 16 bytes, and at most four if the code is of an
-- integer.
pub record IsSendable (o : CoapOption) : Type 0 where
  pub known : kind o.code ≢ Kind.unknown
  pub short : length (value_to_bytes o.value) < 0x1_0000
  pub int_short : kind o.code ≡ Kind.int_kind → length (value_to_bytes o.value) ≤ 4

int_received : Option ℕ → Value
int_received none = Value.nil
int_received (some v) = Value.uint32 v

unfoldable pub received_value : Kind → List ℕ → Value
unfolding int_received
received_value Kind.int_kind bs = int_received (decode_int bs)
received_value Kind.string_kind bs = Value.str bs
received_value Kind.unknown bs = Value.nil

-- The option that arrives: the same code, and its bytes as a uint32 or as a string.
unfoldable pub received : CoapOption → CoapOption
received o = record o { value = received_value (kind o.code) (value_to_bytes o.value) }

add_value_received :
    (k : Kind) (code : ℕ) (options : List CoapOption) (bs rest : List ℕ)
    → k ≢ Kind.unknown
    → (k ≡ Kind.int_kind → length bs ≤ 4)
    → add_value k code options bs rest
      ≡ Round.next code (options ++ (record { code = code; value = received_value k bs } ∷ [])) rest
unfolding add_value received_value
add_value_received Kind.int_kind code options bs rest known short =
    let (v, e) = decode_int_total bs (short refl) in rw e refl
add_value_received Kind.string_kind code options bs rest known short = refl
add_value_received Kind.unknown code options bs rest known short = absurd (known refl)

take_option_bytes :
    (code : ℕ) (options : List CoapOption) (bs rest : List ℕ)
    → kind code ≢ Kind.unknown
    → (kind code ≡ Kind.int_kind → length bs ≤ 4)
    → take_option code options (length bs) (bs ++ rest)
      ≡ Round.next code
          (options ++ (record { code = code; value = received_value (kind code) bs } ∷ []))
          rest
unfolding take_option
take_option_bytes code options bs rest known int_short =
    rw (le→leb (length bs) (length (bs ++ rest)) (omega (arith, length-append bs rest))) (
      rw (take-append_length bs rest, drop-append_length bs rest)
        (add_value_received (kind code) code options bs rest known int_short))

-- The bytes of an option with their header values worked out.
abbrev laid_out : ℕ → List ℕ → List ℕ → List ℕ
laid_out d bs rest =
    (header_of d * 16 + header_of (length bs))
    ∷ (extended (pos (header_of d)) d
        ++ (extended (pos (header_of (length bs))) (length bs) ++ (bs ++ rest)))

option_bytes-laid_out :
    (last : ℕ) (o : CoapOption) (rest : List ℕ)
    → last ≤ o.code
    → o.code < 0x1_0000
    → length (value_to_bytes o.value) < 0x1_0000
    → option_bytes last o ++ rest ≡ laid_out (o.code - last) (value_to_bytes o.value) rest
unfolding option_bytes
option_bytes-laid_out last o rest h hc hs =
    let d = o.code - last in
    let n = length (value_to_bytes o.value) in
    let e : sub_ℕ o.code last ≡ pos d = ground arith in
    rw
      (
        e,
        header_of-option_header_value d (omega arith),
        header_of-option_header_value n (omega arith),
      )
      (rw (option_header-eq (header_of d) (header_of n) (header_of-le d) (header_of-le n))
        (rw (append_assoc, append_assoc)))

round-laid_out :
    (last d : ℕ) (options : List CoapOption) (bs rest : List ℕ)
    → d < 0x1_0000
    → length bs < 0x1_0000
    → round last options (laid_out d bs rest)
      ≡ take_option ((last + d) % 0x1_0000) options (length bs) (bs ++ rest)
unfolding round after_delta
round-laid_out last d options bs rest hd hn =
    let l = header_of (length bs) in
    let ld = header_of-le d in
    let ll = header_of-le (length bs) in
    let no_marker : (header_of d * 16 + l == 0xff) ≡ false = ground arith in
    let high : (header_of d * 16 + l) / 16 ≡ header_of d = omega arith in
    let low : bit_and (header_of d * 16 + l) 0x0f ≡ l =
      omega (arith, low_nibble (header_of d * 16 + l) (omega arith)) in
    rw no_marker (
      rw (high, low)
        (rw (read_extended-extended d _ hd, after_delta)
          (rw (read_extended-extended (length bs) (bs ++ rest) hn, after_delta))))

-- One round of deserialize reads one option of Serialize, whatever bytes follow it.
pub round-option_bytes :
    (last : ℕ) (o : CoapOption) (options : List CoapOption) (rest : List ℕ)
    → last ≤ o.code
    → IsSendable o
    → round last options (option_bytes last o ++ rest)
      ≡ Round.next o.code (options ++ (received o ∷ [])) rest
unfolding received
round-option_bytes last o options rest h s =
    let bs = value_to_bytes o.value in
    let bound = code_bound o.code s.known in
    let e : (last + (o.code - last)) % 0x1_0000 ≡ o.code = omega arith in
    rw (option_bytes-laid_out last o rest h bound s.short) (
      round-laid_out last (o.code - last) options bs rest (omega arith) s.short
      ∙ rw e (take_option_bytes o.code options bs rest s.known s.int_short))
