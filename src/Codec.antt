-- ===== src/Codec.antt =====
-- message.go and common.go: the datagram of a message.
pub mod Order
pub mod OptionRound
pub mod RoundTrip
pub mod Deserialize
pub mod Known
use coalago.Base.{
  ℕ, zero, suc, ◌+◌, ◌-◌, ◌*◌, ◌/◌, ◌%◌, ◌<◌, Bool, true, false, Option, none, some, List, [], ◌∷◌,
  ◌++◌, ◌&&◌, ◌||◌, ltb, leb, ◌==◌, if◌then◌else◌, length, get_elem?, set, take, drop, bit_and,
  bit_or, not,
}
use coalago.Base.Int.{ℤ, pos, negsuc, sub_ℕ, to_word, is_at_most}
use coalago.Constants.{
  Error, option_uri_path, option_uri_scheme, coap_scheme, coaps_scheme, payload_marker,
}
use coalago.Options.{Value, CoapOption, int_value, is_repeatable_option}
use coalago.Message.{
  Payload, CoapMessage, payload_bytes, payload_length, get_options, get_option, add_option,
}
use coalago.Sort
use coalago.Wire.{encode_int, put_uint16}

-- sortOptions.Less; the library's sort calls it and Swap with indices of the slice only.
unfoldable pub less : List CoapOption → ℕ → ℕ → Bool
less os i j = elim (get_elem? os i) [
  | none ↦ false
  | some o ↦ elim (get_elem? os j) [ none ↦ false | some p ↦ ltb o.code p.code ]
]

-- os[i], os[j] = os[j], os[i]
unfoldable pub exchange : List CoapOption → ℕ → ℕ → List CoapOption
exchange os i j = elim (get_elem? os i) [
  | none ↦ os
  | some o ↦ elim (get_elem? os j) [ none ↦ os | some p ↦ set (set os i p) j o ]
]

unfoldable pub is_path_at : List CoapOption → ℕ → Bool
is_path_at os i = elim (get_elem? os i) [ none ↦ false | some o ↦ o.code == option_uri_path ]

-- The loop of sortOptions.Swap over the slice, for `k` more rounds from `index` on.
unfoldable pub swap_loop : ℕ → ℕ → ℕ → ℕ → List CoapOption → List CoapOption
unfolding exchange is_path_at
swap_loop zero index i j os = os
swap_loop (suc k) index i j os = swap_loop k (suc index) i j (
    if is_path_at os index && (ltb j index && ltb index i)
    then exchange (exchange os i index) j index
    else os)

-- sortOptions.Swap
unfoldable pub swap : List CoapOption → ℕ → ℕ → List CoapOption
swap os i j =
    let os' = exchange os i j in
    if is_path_at os' j || is_path_at os' i then swap_loop (length os') 0 i j os' else os'

-- sort.Sort(sortOptions(options))
unfoldable pub sort_options : List CoapOption → List CoapOption
sort_options os = Sort.sort less swap os

-- getOptionHeaderValue; its error goes with the value 0.
unfoldable pub option_header_value : ℤ → ℤ × Option Error
option_header_value v =
    if is_at_most v 12
    then (v, none)
    else if is_at_most v 268
    then (pos 13, none)
    else if is_at_most v 65804
    then (pos 14, none)
    else (pos 0, some Error.invalid_option_delta)

-- valueToBytes
unfoldable pub value_to_bytes : Value → List ℕ
value_to_bytes (Value.str s) = s
value_to_bytes (Value.bytes s) = s
value_to_bytes (Value.media n) = encode_int (to_word 0x1_0000_0000 n)
value_to_bytes (Value.uint8 n) = encode_int n
value_to_bytes (Value.int n) = encode_int (to_word 0x1_0000_0000 n)
value_to_bytes (Value.int32 n) = encode_int (to_word 0x1_0000_0000 n)
value_to_bytes (Value.uint n) = encode_int (n % 0x1_0000_0000)
value_to_bytes (Value.uint32 n) = encode_int n
value_to_bytes Value.nil = encode_int 0
value_to_bytes (Value.int8 n) = encode_int 0
value_to_bytes (Value.int16 n) = encode_int 0
value_to_bytes (Value.uint16 n) = encode_int 0
value_to_bytes Value.other = encode_int 0

-- byte(optDeltaValue<<4 | optLengthValue)
unfoldable pub option_header : ℤ → ℤ → ℕ
option_header delta len = bit_or (to_word 256 delta * 16 % 256) (to_word 256 len)

-- The extended form of a delta or a length `v` with the header value `h`.
unfoldable pub extended : ℤ → ℕ → List ℕ
extended h v = elim h [
  | negsuc n ↦ []
  | pos n ↦
      if n == 13
      then ((v - 13) % 256) ∷ []
      else if n == 14
      then put_uint16 ((v - 269) % 0x1_0000)
      else []
]

-- One round of the loop of Serialize: the option's bytes after an option with the code `last`.
-- The extended form is written only where the delta is at least 13, so it is no negative number.
unfoldable pub option_bytes : ℕ → CoapOption → List ℕ
option_bytes last o =
    let value = value_to_bytes o.value in
    let dh = (option_header_value (sub_ℕ o.code last)).0 in
    let lh = (option_header_value (pos (length value))).0 in
    option_header dh lh ∷ (extended dh (o.code - last) ++ (extended lh (length value) ++ value))

unfoldable pub options_bytes : ℕ → List CoapOption → List ℕ
options_bytes last [] = []
options_bytes last (o ∷ os) = option_bytes last o ++ options_bytes o.code os

-- The first statement of Serialize.
is_coaps : ℤ → Bool
is_coaps (pos n) = n == coaps_scheme
is_coaps (negsuc n) = false

is_nil : Value → Bool
is_nil Value.nil = true
is_nil _ = false

unfoldable pub normalize_scheme : CoapMessage → CoapMessage
unfolding is_coaps is_nil
normalize_scheme m = elim (get_option option_uri_scheme m) [
  | none ↦ m
  | some o ↦
      if is_nil o.value || not (is_coaps (int_value o.value))
      then add_option option_uri_scheme (Value.int (pos coap_scheme)) m
      else m
]

-- (1 << 6) | (uint8(type) << 4) | 0x0f & uint8(len(token))
unfoldable pub header_byte : ℕ → ℕ → ℕ
header_byte type len = bit_or (bit_or 64 (type * 16 % 256)) (bit_and 0x0f (len % 256))

unfoldable pub payload_part : Option Payload → List ℕ
payload_part none = []
payload_part (some p) = if ltb 0 (payload_length p) then payload_marker ∷ payload_bytes p else []

-- Serialize sorts the options of its argument in place, and may replace its scheme option: the
-- datagram, and the message as it is left.
unfoldable pub sorted_message : CoapMessage → CoapMessage
sorted_message m = let n = normalize_scheme m in record n { options = sort_options n.options }

unfoldable pub datagram : CoapMessage → List ℕ
datagram m =
    header_byte m.type (length m.token)
    ∷ m.code
    ∷ (m.message_id / 256 % 256)
    ∷ (m.message_id % 256)
    ∷ (m.token ++ (options_bytes 0 m.options ++ payload_part m.payload))

unfoldable pub serialize : CoapMessage → List ℕ × CoapMessage
serialize m = let s = sorted_message m in (datagram s, s)
