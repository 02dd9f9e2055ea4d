-- ===== src/Message.antt =====
-- message.go: the message and its payload, and the option lists of options.go.
pub mod OptionLists
pub mod Cloned
pub mod Fields
pub mod Accessors
use coalago.Base.{
  ℕ, Bool, false, Option, none, some, List, [], ◌∷◌, ◌++◌, ◌==◌, ltb, not, length, filter, map,
  if◌then◌else◌,
}
use coalago.Constants.{con, max_payload_size}
use coalago.Options.{Value, CoapOption, string_value, is_repeatable_option}

-- CoAPMessagePayload. A JSON payload holds what json.Marshal makes of its object, if that succeeds.
pub data Payload : Type 0 where
  string_payload : List ℕ → Payload
  bytes_payload : List ℕ → Payload
  empty_payload : Payload
  json_payload : Option (List ℕ) → Payload

-- The method Bytes.
unfoldable pub payload_bytes : Payload → List ℕ
payload_bytes (Payload.string_payload s) = s
payload_bytes (Payload.bytes_payload s) = s
payload_bytes Payload.empty_payload = []
payload_bytes (Payload.json_payload none) = []
payload_bytes (Payload.json_payload (some s)) = s

-- The method Length.
unfoldable pub payload_length : Payload → ℕ
unfolding payload_bytes
payload_length p = length (payload_bytes p)

-- CoAPMessage. An address is the text that its String method gives; a nil payload or address is
-- `none`. Attempts, LastSent and Context are read nowhere in the repository.
pub record CoapMessage : Type 0 where
  pub message_id : ℕ
  pub type : ℕ
  pub code : ℕ
  pub payload : Option Payload
  pub token : List ℕ
  pub options : List CoapOption
  pub sender : Option (List ℕ)
  pub recipient : Option (List ℕ)
  pub timeout : ℕ
  pub is_proxies : Bool
  pub break_connection_on_pk : Option (List ℕ → Bool)
  pub peer_public_key : List ℕ
  pub proxy_addr : List ℕ
  pub add_checksum_on_send : Bool

-- The zero value `&CoAPMessage{}`.
abbrev pub zero_message : CoapMessage
zero_message = record {
  message_id = 0;
  type = 0;
  code = 0;
  payload = none;
  token = [];
  options = [];
  sender = none;
  recipient = none;
  timeout = 0;
  is_proxies = false;
  break_connection_on_pk = none;
  peer_public_key = [];
  proxy_addr = [];
  add_checksum_on_send = false;
}

-- time.Second, in nanoseconds
abbrev pub time_wait : ℕ
time_wait = 1_000_000_000

-- NewCoAPMessageId; the random token of six bytes is an argument.
unfoldable pub new_message_id : List ℕ → ℕ → ℕ → ℕ → CoapMessage
new_message_id random_token type code id = record zero_message {
  message_id = id;
  type = type;
  code = code;
  token = random_token;
  timeout = time_wait;
}

-- NewCoAPMessage; the next message id is an argument too.
unfoldable pub new_message : ℕ → List ℕ → ℕ → ℕ → CoapMessage
unfolding new_message_id
new_message next_id random_token type code =
    record (new_message_id random_token type code next_id) { payload = some Payload.empty_payload }

-- isBigPayload
unfoldable pub is_big_payload : CoapMessage → Bool
unfolding payload_length
is_big_payload m = elim m.payload [
  | none ↦ false
  | some p ↦ ltb max_payload_size (payload_length p)
]

-- IsRequest
unfoldable pub is_request : CoapMessage → Bool
is_request m = m.type == con

abbrev pub has_code : ℕ → CoapOption → Bool
has_code id o = o.code == id

abbrev pub lacks_code : ℕ → CoapOption → Bool
lacks_code id o = not (o.code == id)

abbrev pub first_with : ℕ → List CoapOption → Option CoapOption
first_with id [] = none
first_with id (o ∷ os) = let rest = first_with id os in if o.code == id then some o else rest

-- GetOptions
unfoldable pub get_options : ℕ → CoapMessage → List CoapOption
get_options id m = filter (has_code id) m.options

-- GetOption
unfoldable pub get_option : ℕ → CoapMessage → Option CoapOption
get_option id m = first_with id m.options

-- GetOptionAsString
unfoldable pub get_option_as_string : ℕ → CoapMessage → List ℕ
unfolding get_option string_value
get_option_as_string id m = elim (get_option id m) [ none ↦ [] | some o ↦ string_value o.value ]

-- GetOptionsAsString
unfoldable pub get_options_as_string : ℕ → CoapMessage → List (List ℕ)
unfolding get_options string_value
get_options_as_string id m = map (λ o. string_value o.value) (get_options id m)

-- RemoveOptions
unfoldable pub remove_options : ℕ → CoapMessage → CoapMessage
remove_options id m = record m { options = filter (lacks_code id) m.options }

-- AddOption
unfoldable pub add_option : ℕ → Value → CoapMessage → CoapMessage
unfolding remove_options is_repeatable_option
add_option code value m =
    let opt : CoapOption = record { code = code; value = value } in
    if is_repeatable_option code
    then record m { options = m.options ++ (opt ∷ []) }
    else record m { options = (remove_options code m).options ++ (opt ∷ []) }

-- AddOptions
unfoldable pub add_options : List CoapOption → CoapMessage → CoapMessage
unfolding add_option
add_options [] m = m
add_options (o ∷ os) m = add_options os (add_option o.code o.value m)

-- CloneOptions: the options of `cm` with the given codes.
unfoldable pub clone_options : CoapMessage → List ℕ → CoapMessage → CoapMessage
unfolding add_options get_options
clone_options cm [] m = m
clone_options cm (c ∷ cs) m = clone_options cm cs (add_options (get_options c cm) m)

-- Clone; the random token that NewCoAPMessageId draws is overwritten.
unfoldable pub clone : Bool → CoapMessage → CoapMessage
unfolding new_message_id
clone include_payload m =
    let c = new_message_id [] m.type m.code m.message_id in
    record c {
      payload = if include_payload then m.payload else c.payload;
      token = m.token;
      options = m.options;
      proxy_addr = m.proxy_addr;
      break_connection_on_pk = m.break_connection_on_pk;
      add_checksum_on_send = m.add_checksum_on_send;
    }
