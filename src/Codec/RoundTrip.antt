-- ===== src/Codec/RoundTrip.antt =====
-- deserialize after Serialize, for messages whose options deserialize knows.
pub mod Sent
use mathlib.Core.List.{append_assoc, append-nil}
use native.Mathlib.Nat.{le_refl}
use coalago.Base.{
  ℕ, zero, suc, ◌+◌, ◌-◌, ◌*◌, ◌/◌, ◌%◌, ◌≤◌, ◌<◌, ◌≡◌, refl, sym, ap, ◌∙◌, Bool, true, false,
  Option, none, some, List, [], ◌∷◌, ◌++◌, length, take, drop, All, ltb, leb, le→leb, ◌==◌, ==_iff,
  not, arith, Bool-cases, Option-cases, inl, inr, ◌≢◌, map, filter, take-append_length,
  drop-append_length, length-append, bit_and, bit_or, if◌then◌else◌,
}
use coalago.Base.Bits.{join_header, low_nibble, low_two, mask_nibble}
use coalago.Codec.{
  value_to_bytes, option_bytes, options_bytes, payload_part, header_byte, datagram, sorted_message,
  serialize, normalize_scheme, sort_options,
}
use coalago.Codec.Deserialize.{
  Round, round, Parsed, parse_options, Returned, finish_message, after_header, deserialize,
  validate_message,
}
use coalago.Codec.OptionRound.{IsSendable, received, round-option_bytes}
use coalago.Codec.Order.{Ascends}
use coalago.Message.{Payload, payload_bytes, payload_length, CoapMessage, zero_message, has_code}
use coalago.Options.{Value, CoapOption}

-- The bytes of a message's payload; none, if it has no payload.
unfoldable pub payload_body : Option Payload → List ℕ
payload_body none = []
payload_body (some p) = payload_bytes p

nonempty_part :
    (last : ℕ) (options : List CoapOption) (bs : List ℕ)
    → round last options (if ltb 0 (length bs) then 0xff ∷ bs else []) ≡ Round.finish options bs
unfolding round
nonempty_part last options [] = refl
nonempty_part last options (b ∷ bs) = ground arith

-- Behind the last option the loop ends with the payload.
round-payload_part :
    (last : ℕ) (options : List CoapOption) (p : Option Payload)
    → round last options (payload_part p) ≡ Round.finish options (payload_body p)
unfolding payload_part payload_body payload_length
round-payload_part last options none = unfold round in refl
round-payload_part last options (some p) = nonempty_part last options (payload_bytes p)

parse_options-options_bytes :
    (os : List CoapOption) (fuel last : ℕ) (options : List CoapOption) (p : Option Payload)
    → length os < fuel
    → Ascends last os
    → All IsSendable os
    → parse_options fuel last options (options_bytes last os ++ payload_part p)
      ≡ Parsed.parsed (options ++ map received os) (payload_body p)
unfolding parse_options options_bytes
parse_options-options_bytes [] zero last options p hf a s = absurd (omega arith)
parse_options-options_bytes [] (suc fuel) last options p hf a s =
    rw (round-payload_part last options p, parse_options) (rw append-nil)
parse_options-options_bytes (o ∷ os) zero last options p hf a s = absurd (omega arith)
parse_options-options_bytes (o ∷ os) (suc fuel) last options p hf a s =
    rw (append_assoc (option_bytes last o) (options_bytes o.code os) (payload_part p)) (
      rw
        (
          round-option_bytes last o options (options_bytes o.code os ++ payload_part p) a.0 s.0,
          parse_options,
        )
        (parse_options-options_bytes os fuel o.code (options ++ (received o ∷ [])) p (omega arith)
            a.1 s.1
          ∙ rw append_assoc))

length-options_bytes :
    (last : ℕ) (os : List CoapOption) → length os ≤ length (options_bytes last os)
unfolding options_bytes option_bytes
length-options_bytes last [] = omega arith
length-options_bytes last (o ∷ os) = omega (
  arith,
  length-options_bytes o.code os,
  length-append (option_bytes last o) (options_bytes o.code os),
)

-- The message that arrives when `m` is sent, `m` as Serialize leaves it.
unfoldable pub arrived : CoapMessage → CoapMessage
arrived m = record zero_message {
  message_id = m.message_id;
  type = m.type;
  code = m.code;
  payload = some (Payload.bytes_payload (payload_body m.payload));
  token = m.token;
  options = map received m.options;
}

-- The fixed header, and the token, in range.
pub record HasHeader (m : CoapMessage) : Type 0 where
  pub type_ok : m.type ≤ 3
  pub id_ok : m.message_id < 0x1_0000
  pub token_ok : length m.token ≤ 8

header_byte-eq : (t l : ℕ) → t ≤ 3 → l ≤ 8 → header_byte t l ≡ 64 + t * 16 + l
unfolding header_byte
header_byte-eq t l ht hl =
    rw (mask_nibble l (omega arith)) (join_header t l (omega arith) (omega arith))

after_header-body :
    (z : CoapMessage) (m : CoapMessage)
    → Ascends 0 m.options
    → All IsSendable m.options
    → after_header z
        (length m.token)
        (m.token ++ (options_bytes 0 m.options ++ payload_part m.payload))
      ≡ finish_message
          (record z { token = m.token })
          (Parsed.parsed (map received m.options) (payload_body m.payload))
unfolding after_header
after_header-body z m a s =
    let tail = options_bytes 0 m.options ++ payload_part m.payload in
    let enough : length m.options < suc (length tail) = omega (
      arith,
      length-options_bytes 0 m.options,
      length-append (options_bytes 0 m.options) (payload_part m.payload),
    ) in
    rw
      (le→leb (length m.token) (length (m.token ++ tail))
        (omega (arith, length-append m.token tail)))
      (rw (take-append_length m.token tail, drop-append_length m.token tail)
        (rw (parse_options-options_bytes m.options (suc (length tail)) 0 [] m.payload enough a s)))

-- The datagram of a message whose options are in order.
pub deserialize-datagram :
    (m : CoapMessage)
    → HasHeader m
    → Ascends 0 m.options
    → All IsSendable m.options
    → deserialize (datagram m)
      ≡ record { message = some (arrived m); error = validate_message (arrived m) }
unfolding deserialize datagram arrived
deserialize-datagram m h a s =
    let n = length m.token in
    let hb = header_byte-eq m.type n h.type_ok h.token_ok in
    let version : ((64 + m.type * 16 + n) / 64 == 1) ≡ true = (==_iff _ 1).1 (omega arith) in
    let type : bit_and ((64 + m.type * 16 + n) / 16) 3 ≡ m.type =
      omega (arith, low_two ((64 + m.type * 16 + n) / 16) (omega arith)) in
    let len : bit_and (64 + m.type * 16 + n) 0x0f ≡ n =
      omega (arith, low_nibble (64 + m.type * 16 + n) (omega arith)) in
    let id : m.message_id / 256 % 256 * 256 + m.message_id % 256 ≡ m.message_id = omega arith in
    rw (hb, version)
      (rw (type, len, id) (after_header-body _ m a s ∙ unfold finish_message in refl))
