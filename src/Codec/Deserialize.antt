-- ===== src/Codec/Deserialize.antt =====
-- message.go: deserialize; common.go: validateMessage.
pub mod Total
use coalago.Base.{
  ℕ, zero, suc, ◌+◌, ◌/◌, ◌%◌, Bool, false, Option, none, some, List, [], ◌∷◌, ◌++◌, ◌&&◌, ◌||◌,
  not, ltb, leb, ◌==◌, if◌then◌else◌, length, take, drop, bit_and, filter,
}
use coalago.Constants.{
  Error, payload_marker, option_uri_scheme, option_proxy_scheme, option_uri_port,
  option_content_format, option_max_age, option_accept, option_size1, option_size2, option_block1,
  option_block2, option_handshake_type, option_observe, option_session_not_found,
  option_session_expired, option_selective_repeat_window_size, option_proxy_security_id,
  option_uri_host, option_etag, option_location_path, option_uri_path, option_uri_query,
  option_location_query, option_proxy_uri, option_coaps_uri, option_checksum,
}
use coalago.Options.{Value, CoapOption, is_repeatable_option}
use coalago.Message.{Payload, CoapMessage, zero_message, has_code}
use coalago.Wire.{decode_int, uint16_of}

-- The two lists of codes in the switch on the option's code, and its default.
pub data Kind : Type 0 where
  int_kind string_kind unknown : Kind

unfoldable pub is_int_code : ℕ → Bool
is_int_code c =
    c == option_uri_scheme
    || c == option_proxy_scheme
    || c == option_uri_port
    || c == option_content_format
    || c == option_max_age
    || c == option_accept
    || c == option_size1
    || c == option_size2
    || c == option_block1
    || c == option_block2
    || c == option_handshake_type
    || c == option_observe
    || c == option_session_not_found
    || c == option_session_expired
    || c == option_selective_repeat_window_size
    || c == option_proxy_security_id

unfoldable pub is_string_code : ℕ → Bool
is_string_code c =
    c == option_uri_host
    || c == option_etag
    || c == option_location_path
    || c == option_uri_path
    || c == option_uri_query
    || c == option_location_query
    || c == option_proxy_uri
    || c == option_coaps_uri
    || c == option_checksum

unfoldable pub kind : ℕ → Kind
kind c =
    if is_int_code c
    then Kind.int_kind
    else if is_string_code c
    then Kind.string_kind
    else Kind.unknown

-- An option delta or an option length: its value and the bytes behind it, the reserved 15, or an
-- index out of range.
pub data Extended : Type 0 where
  value : ℕ → List ℕ → Extended
  reserved : Extended
  out_of_range : Extended

extended_1 : List ℕ → Extended
extended_1 [] = Extended.out_of_range
extended_1 (a ∷ tmp) = Extended.value (a + 13) tmp

extended_2 : List ℕ → Extended
extended_2 (a ∷ b ∷ tmp) = Extended.value ((uint16_of a b + 269) % 0x1_0000) tmp
extended_2 _ = Extended.out_of_range

unfoldable pub read_extended : ℕ → List ℕ → Extended
unfolding extended_1 extended_2
read_extended n tmp =
    if n == 13
    then extended_1 tmp
    else if n == 14
    then extended_2 tmp
    else if n == 15
    then Extended.reserved
    else Extended.value n tmp

-- What one round of the loop over the options does: go on with the last option's code, the options
-- and the bytes left; end the loop with the payload; return the message so far, or no message, with
-- an error; or panic.
pub data Round : Type 0 where
  next : ℕ → List CoapOption → List ℕ → Round
  finish : List CoapOption → List ℕ → Round
  fail : Option (List CoapOption) → Error → Round
  crash : Round

abbrev pub with_int : ℕ → List CoapOption → Option ℕ → List ℕ → Round
with_int code options none tmp = Round.fail none Error.data_outside_of_type
with_int code options (some v) tmp =
    Round.next code (options ++ (record { code = code; value = Value.uint32 v } ∷ [])) tmp

-- The switch on the option's code, for an option with all of its value's bytes.
unfoldable pub add_value : Kind → ℕ → List CoapOption → List ℕ → List ℕ → Round
add_value Kind.int_kind code options bs tmp = with_int code options (decode_int bs) tmp
add_value Kind.string_kind code options bs tmp =
    Round.next code (options ++ (record { code = code; value = Value.str bs } ∷ [])) tmp
add_value Kind.unknown code options bs tmp =
    if bit_and code 1 == 1
    then Round.fail (some options) Error.unknown_critical_option
    else Round.next code options tmp

-- The option with the code `code` whose value is the first `len` bytes of `tmp`, if those are there.
unfoldable pub take_option : ℕ → List CoapOption → ℕ → List ℕ → Round
take_option code options len tmp =
    if leb len (length tmp)
    then add_value (kind code) code options (take len tmp) (drop len tmp)
    else Round.next code (options ++ (record { code = code; value = Value.nil } ∷ [])) tmp

unfoldable pub after_delta : ℕ → List CoapOption → ℕ → Extended → Round
after_delta last options len Extended.out_of_range = Round.crash
after_delta last options len Extended.reserved =
    Round.fail (some options) Error.option_delta_uses_value_15
after_delta last options len (Extended.value delta tmp) =
    let code = (last + delta) % 0x1_0000 in
    elim (read_extended len tmp) [
      | Extended.out_of_range ↦ Round.crash
      | Extended.reserved ↦ Round.fail (some options) Error.option_length_uses_value_15
      | Extended.value n tmp' ↦ take_option code options n tmp'
    ]

unfoldable pub round : ℕ → List CoapOption → List ℕ → Round
round last options [] = Round.finish options []
round last options (b ∷ tmp) =
    if b == payload_marker
    then Round.finish options tmp
    else after_delta last options (bit_and b 0x0f) (read_extended (b / 16) tmp)

-- A Go function's message and error.
pub record Returned : Type 0 where
  pub message : Option CoapMessage
  pub error : Option Error

-- The loop, for at most `fuel` rounds; `stuck` is no Go behaviour: the fuel ran out.
pub data Parsed : Type 0 where
  parsed : List CoapOption → List ℕ → Parsed
  failed : Option (List CoapOption) → Error → Parsed
  panicked : Parsed
  stuck : Parsed

unfoldable pub parse_options : ℕ → ℕ → List CoapOption → List ℕ → Parsed
parse_options zero last options tmp = Parsed.stuck
parse_options (suc fuel) last options tmp = elim (round last options tmp) [
  | Round.next last' options' tmp' ↦ parse_options fuel last' options' tmp'
  | Round.finish options' payload ↦ Parsed.parsed options' payload
  | Round.fail options' e ↦ Parsed.failed options' e
  | Round.crash ↦ Parsed.panicked
]

-- The loop of validateMessage over the options `rest` of a message with the options `all`.
is_repeated : ℕ → List CoapOption → Bool
is_repeated code all = ltb 1 (length (filter (has_code code) all))

unfoldable pub has_repeated_critical : List CoapOption → List CoapOption → Bool
unfolding is_repeated
has_repeated_critical all [] = false
has_repeated_critical all (o ∷ rest) =
    (is_repeated o.code all && (not (is_repeatable_option o.code) && bit_and o.code 1 == 1))
    || has_repeated_critical all rest

-- validateMessage
unfoldable pub validate_message : CoapMessage → Option Error
validate_message m =
    if ltb 3 m.type
    then some Error.unknown_message_type
    else if ltb 8 (length m.token % 256)
    then some Error.invalid_token_length
    else if has_repeated_critical m.options m.options
    then some Error.unknown_critical_option
    else none

-- What the recovered panic leaves: the zero values of the results.
abbrev pub recovered : Returned
recovered = record { message = none; error = none }

unfoldable pub finish_message : CoapMessage → Parsed → Returned
finish_message m (Parsed.parsed options payload) =
    let m' = record m { options = options; payload = some (Payload.bytes_payload payload) } in
    record { message = some m'; error = validate_message m' }
finish_message m (Parsed.failed (some options) e) = record {
  message = some (record m { options = options });
  error = some e;
}
finish_message m (Parsed.failed none e) = record { message = none; error = some e }
finish_message m Parsed.panicked = recovered
finish_message m Parsed.stuck = recovered

-- deserialize, on the bytes behind the four of the fixed header. A slice beyond the end of the data
-- but within its capacity is followed by one that starts beyond the end, and panics.
unfoldable pub after_header : CoapMessage → ℕ → List ℕ → Returned
after_header m token_length body =
    if leb token_length (length body)
    then (let m' = record m { token = take token_length body } in
        let tmp = drop token_length body in
        finish_message m' (parse_options (suc (length tmp)) 0 [] tmp))
    else recovered

unfoldable pub deserialize : List ℕ → Returned
deserialize (h ∷ code ∷ i ∷ j ∷ body) =
    if h / 64 == 1
    then after_header
        (record zero_message { type = bit_and (h / 16) 3; code = code; message_id = uint16_of i j })
        (bit_and h 0x0f) body
    else record { message = none; error = some Error.invalid_coap_version }
deserialize _ = record { message = some zero_message; error = some Error.packet_length_less_than_4 }
