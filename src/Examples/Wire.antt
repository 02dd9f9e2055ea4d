-- ===== src/Examples/Wire.antt =====
-- A block of a request over the wire.
use coalago.Base.{◌≡◌, refl, false, none, some, [], ◌∷◌, arith}
use coalago.Base.Int.{pos}
use coalago.Arq.Blocks.{Frame}
use coalago.Arq.Receive.Progress.{Brings}
use coalago.Arq.Receive.Wire.{deserialize-serialize-Brings}
use coalago.Block.{new_block, to_int}
use coalago.Codec.{serialize, value_to_bytes}
use coalago.Codec.Deserialize.{deserialize, kind, is_int_code, is_string_code}
use coalago.Codec.RoundTrip.Sent.{IsDistinct, IsSendableMessage}
use coalago.Constants.{option_block1}
use coalago.Message.{Payload, CoapMessage, zero_message, get_option}
use coalago.Options.{Value}
use coalago.Wire.{encode_int}

abbrev last_block : Frame
last_block = record { number = 1; more = false; bytes = 5 ∷ 6 ∷ [] }

abbrev block_message : CoapMessage
block_message = record zero_message {
  message_id = 514;
  code = 2;
  token = 1 ∷ 2 ∷ [];
  options =
      record {
        code = option_block1;
        value = Value.int (to_int (new_block false (pos 1) (pos 1024)));
      }
      ∷ [];
  payload = some (Payload.bytes_payload (5 ∷ 6 ∷ []));
}

block_message-IsSendableMessage : IsSendableMessage block_message
unfolding kind is_int_code is_string_code value_to_bytes encode_int IsDistinct to_int new_block
block_message-IsSendableMessage = record {
  header = record { type_ok = omega arith; id_ok = omega arith; token_ok = omega arith };
  few = omega arith;
  sendable = (record { known = λ e. cc; short = omega arith; int_short = λ e. omega arith }, tt);
  distinct = λ c r k. ground arith;
}

deserialize-serialize-Brings_example :
    (r : CoapMessage) × (deserialize (serialize block_message).0
      ≡ record { message = some r; error = none })
    × Brings last_block r
deserialize-serialize-Brings_example =
    deserialize-serialize-Brings last_block block_message (omega arith)
      (unfold get_option in (refl, refl, refl)) block_message-IsSendableMessage
