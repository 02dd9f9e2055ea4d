-- ===== src/Arq/Receive/Wire.antt =====
-- A block's message after it went over the wire.
use coalago.Base.{◌%◌, ◌<◌, ◌≡◌, refl, sym, ap, ◌∙◌, none, some, List, [], ◌∷◌, map, arith}
use coalago.Base.Int.{pos}
use coalago.Block.{new_block, new_block_from_int, to_int, get_block1}
use coalago.Block.RoundTrip.{
  to_int-option_value, new_block_from_int-option_value, option_value, size_of,
}
use coalago.Codec.{serialize, normalize_scheme, sorted_message, value_to_bytes}
use coalago.Codec.Deserialize.{deserialize, kind, is_int_code}
use coalago.Codec.OptionRound.{received, received_value}
use coalago.Codec.RoundTrip.{arrived, payload_body}
use coalago.Codec.RoundTrip.Sent.{IsSendableMessage, normalize_scheme-cases, deserialize-serialize}
use coalago.Constants.{max_payload_size, option_block1, option_uri_scheme}
use coalago.Message.{Payload, CoapMessage, get_option, get_options, payload_bytes}
use coalago.Message.OptionLists.{first_of_all, get_option-get_options, get_options-add_option}
use coalago.Message.Fields.{add_option-keeps}
use coalago.Options.{Value, CoapOption, int_value}
use coalago.Wire.Words.{decode_int-encode_int}
use coalago.Arq.Blocks.{Frame, Carries}
use coalago.Arq.Receive.Progress.{Brings}

first_of_all-map :
    (os : List CoapOption) (o : CoapOption)
    → first_of_all os ≡ some o
    → first_of_all (map received os) ≡ some (received o)
first_of_all-map [] o e = cc e
first_of_all-map (p ∷ os) o e = let same : p ≡ o = cc e in ap (λ x. some (received x)) same

-- What Serialize does before it sorts changes neither the payload, nor the type, nor a block option.
record IsNormal (m n : CoapMessage) : Type 0 where
  block_ok : get_options option_block1 n ≡ get_options option_block1 m
  payload_ok : n.payload ≡ m.payload
  type_ok : n.type ≡ m.type

normalize_scheme-IsNormal : (m : CoapMessage) → IsNormal m (normalize_scheme m)
normalize_scheme-IsNormal m =
    normalize_scheme-cases m (IsNormal m)
      (record { block_ok = refl; payload_ok = refl; type_ok = refl })
      (λ o e. record {
        block_ok = get_options-add_option option_block1 option_uri_scheme _ m;
        payload_ok = add_option-keeps (λ x. x.payload) (λ x os. refl) option_uri_scheme _ m;
        type_ok = add_option-keeps (λ x. x.type) (λ x os. refl) option_uri_scheme _ m;
      })

-- The option that a receiver sees for the value of a block option.
received_block :
    (f : Frame)
    → f.number < 0x100_0000
    → int_value
        (received (record {
          code = option_block1;
          value = Value.int (to_int (new_block f.more (pos f.number) (pos max_payload_size)));
        })).value
      ≡ pos (option_value f.number f.more 6)
unfolding received kind is_int_code received_value value_to_bytes size_of
received_block f h =
    let v = option_value f.number f.more 6 in
    let e : to_int (new_block f.more (pos f.number) (pos max_payload_size)) ≡ pos v =
      to_int-option_value f.more f.number 6 (omega arith) in
    let small : v < 0x1_0000_0000 = unfold option_value in ground arith in
    let same : v % 0x1_0000_0000 ≡ v = omega arith in
    rw e (rw (same, decode_int-encode_int v small) (unfold int_value in refl))

arrived_block1 :
    (f : Frame) (m : CoapMessage)
    → f.number < 0x100_0000
    → Carries option_block1 f m
    → IsSendableMessage m
    → get_block1 (arrived (serialize m).1)
      ≡ some (new_block f.more (pos f.number) (pos max_payload_size))
unfolding get_block1 size_of
arrived_block1 f m h (o, p, t) s =
    rw (option, get_block1)
      (ap some (
        ap new_block_from_int (received_block f h)
        ∙ new_block_from_int-option_value f.more f.number 6 (omega arith)))
  where
    sent : CoapOption
    sent = record {
      code = option_block1;
      value = Value.int (to_int (new_block f.more (pos f.number) (pos max_payload_size)));
    }

    option : get_option option_block1 (arrived (serialize m).1) ≡ some (received sent)
    option =
        get_option-get_options option_block1 (arrived (serialize m).1)
        ∙ ap first_of_all ((deserialize-serialize m s).1 option_block1)
        ∙ first_of_all-map (get_options option_block1 (normalize_scheme m)) sent (
            ap first_of_all (normalize_scheme-IsNormal m).block_ok
            ∙ sym (get_option-get_options option_block1 m)
            ∙ o)

-- A message that carries a block of a request and can go through a datagram: what deserialize makes
-- of Serialize's bytes brings that block to the receiver, for block numbers below 2 ^ 24.
pub deserialize-serialize-Brings :
    (f : Frame) (m : CoapMessage)
    → f.number < 0x100_0000
    → Carries option_block1 f m
    → IsSendableMessage m
    → (r : CoapMessage) × (deserialize (serialize m).0 ≡ record { message = some r; error = none })
      × Brings f r
deserialize-serialize-Brings f m h c s = (
  arrived (serialize m).1,
  (deserialize-serialize m s).0,
  record {
    block_ok = arrived_block1 f m h c s;
    payload_ok =
        unfold arrived serialize sorted_message payload_body payload_bytes in
        ap (λ p. some (Payload.bytes_payload (payload_body p)))
          ((normalize_scheme-IsNormal m).payload_ok ∙ c.1);
    type_ok =
        unfold arrived serialize sorted_message in ((normalize_scheme-IsNormal m).type_ok ∙ c.2);
  },
)
