-- ===== src/Examples/Codec.antt =====
-- message.go, options.go, block.go: runs on small messages.
use coalago.Base.{
  ◌≢◌, not, ◌&&◌, ◌||◌, ℕ, ◌≡◌, refl, true, none, some, List, [], ◌∷◌, ◌++◌, map, filter, ◌==◌,
  arith, if◌then◌else◌,
}
use coalago.Base.Int.{pos}
use coalago.Block.{new_block, to_int, new_block_from_int}
use coalago.Block.RoundTrip.{size_of, new_block_from_int-to_int}
use coalago.Codec.{serialize, sort_options, normalize_scheme, value_to_bytes}
use coalago.Codec.Deserialize.{
  Parsed, parse_options, deserialize, kind, is_int_code, is_string_code,
}
use coalago.Codec.Deserialize.Total.{parse_options_ends}
use coalago.Codec.Known.{is_valid_option-known}
use coalago.Message.Accessors.{is_valid_option}
use coalago.Codec.OptionRound.{received}
use coalago.Codec.Order.{Ascends}
use coalago.Codec.Order.Stable.{sort_options_stable}
use coalago.Codec.RoundTrip.{arrived}
use coalago.Codec.RoundTrip.Sent.{IsDistinct, IsSendableMessage, deserialize-serialize}
use coalago.Constants.{
  option_size2, option_coaps_uri, option_if_match, option_if_none_match, option_uri_path,
  option_block1, option_uri_query,
}
use coalago.Message.{
  Payload, CoapMessage, zero_message, has_code, get_options, get_options_as_string, add_option,
  clone_options,
}
use coalago.Message.Cloned.{merged, has, get_options-clone_options}
use coalago.Message.OptionLists.{get_options-add_option}
use coalago.Options.{Value, string_value, CoapOption, is_repeatable_option}
use coalago.Uri.{set_uri_path, get_uri_path}
use coalago.Uri.Path.{set_uri_path-get_uri_path}
use coalago.Wire.{encode_int, decode_int}
use coalago.Wire.Words.{decode_int-encode_int}

-- A request with a path, a query and a block.
abbrev path_option : CoapOption
path_option = record { code = option_uri_path; value = Value.str (b'i' ∷ b'n' ∷ b'f' ∷ b'o' ∷ []) }

abbrev query_option : CoapOption
query_option = record { code = option_uri_query; value = Value.str (b'a' ∷ b'=' ∷ b'1' ∷ []) }

abbrev block_option : CoapOption
block_option = record { code = option_block1; value = Value.int (pos 22) }

abbrev three_options : List CoapOption
three_options = block_option ∷ query_option ∷ path_option ∷ []

abbrev pub request : CoapMessage
request = record zero_message {
  message_id = 513;
  code = 1;
  token = (b'a' ∷ b'b' ∷ b'c' ∷ []);
  options = three_options;
  payload = some (Payload.bytes_payload (b'b' ∷ b'o' ∷ b'd' ∷ b'y' ∷ []));
}

three_options-IsDistinct : IsDistinct three_options
unfolding IsDistinct
three_options-IsDistinct c r k = ground arith

request-IsSendableMessage : IsSendableMessage request
unfolding kind is_int_code is_string_code value_to_bytes encode_int
request-IsSendableMessage = record {
  header = record { type_ok = omega arith; id_ok = omega arith; token_ok = omega arith };
  few = omega arith;
  sendable = (
    record { known = λ e. cc; short = omega arith; int_short = λ e. omega arith },
    (
      record { known = λ e. cc; short = omega arith; int_short = λ e. omega arith },
      (record { known = λ e. cc; short = omega arith; int_short = λ e. omega arith }, tt),
    ),
  );
  distinct = three_options-IsDistinct;
}

deserialize-serialize_example :
    (deserialize (serialize request).0
      ≡ record { message = some (arrived (serialize request).1); error = none })
    × ((c : ℕ)
        → get_options c (arrived (serialize request).1)
          ≡ map received (get_options c (normalize_scheme request)))
deserialize-serialize_example = deserialize-serialize request request-IsSendableMessage

sort_options_stable_example :
    Ascends 0 (sort_options three_options)
    × ((c : ℕ)
        → filter (has_code c) (sort_options three_options) ≡ filter (has_code c) three_options)
sort_options_stable_example = sort_options_stable three_options (omega arith)

new_block_from_int-to_int_example :
    new_block_from_int (to_int (new_block true (pos 5) (pos (size_of 6))))
    ≡ new_block true (pos 5) (pos (size_of 6))
new_block_from_int-to_int_example = new_block_from_int-to_int true 5 6 (omega arith)

decode_int-encode_int_example : decode_int (encode_int 70000) ≡ some 70000
decode_int-encode_int_example = decode_int-encode_int 70000 (omega arith)

get_options-add_option_example :
    get_options option_uri_path (add_option option_uri_path (Value.str (b'x' ∷ [])) request) ≡ (
      if option_uri_path == option_uri_path
      then (if is_repeatable_option option_uri_path
          then get_options option_uri_path request
          else [])
        ++ (record { code = option_uri_path; value = Value.str (b'x' ∷ []) } ∷ [])
      else get_options option_uri_path request)
get_options-add_option_example =
    get_options-add_option option_uri_path option_uri_path (Value.str (b'x' ∷ [])) request

get_options-clone_options_example :
    get_options option_uri_path
      (clone_options request (option_block1 ∷ option_uri_path ∷ []) zero_message)
    ≡ (if has option_uri_path (option_block1 ∷ option_uri_path ∷ [])
        then merged
            (is_repeatable_option option_uri_path)
            (get_options option_uri_path zero_message)
            (get_options option_uri_path request)
        else get_options option_uri_path zero_message)
get_options-clone_options_example =
    get_options-clone_options option_uri_path request (option_block1 ∷ option_uri_path ∷ [])
      zero_message ((omega arith, tt), (tt, tt))

set_uri_path-get_uri_path_example :
    get_options_as_string option_uri_path (set_uri_path (get_uri_path request) zero_message)
    ≡ get_options_as_string option_uri_path request
set_uri_path-get_uri_path_example =
    set_uri_path-get_uri_path zero_message request
      (unfold get_options_as_string get_options string_value in
        ((omega arith, (omega arith, (omega arith, (omega arith, (omega arith, tt))))), tt))
      (unfold get_options_as_string get_options in refl)

is_valid_option-known_example :
    is_valid_option 5
    ≡ ((is_int_code 5 || is_string_code 5) && not (5 == option_size2 || 5 == option_coaps_uri))
      || (5 == option_if_match || 5 == option_if_none_match)
is_valid_option-known_example = is_valid_option-known 5

parse_options_ends_example : parse_options 4 0 [] (0xb1 ∷ 65 ∷ 0xff ∷ []) ≢ Parsed.stuck
parse_options_ends_example = parse_options_ends 4 0 [] (0xb1 ∷ 65 ∷ 0xff ∷ []) (omega arith)
