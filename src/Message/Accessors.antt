-- ===== src/Message/Accessors.antt =====
-- message.go, options.go: the small methods of a message.
use coalago.Base.{
  ℕ, ◌%◌, Bool, true, false, none, some, List, [], ◌++◌, ◌||◌, ◌==◌, if◌then◌else◌, length,
}
use coalago.Base.Int.{ℤ, pos, negsuc}
use coalago.Base.Text.{codes, itoa}
use coalago.Constants.{
  coap_scheme, coaps_scheme, option_content_format, option_proxy_uri, option_proxy_scheme,
  option_uri_host, option_uri_port, option_checksum, option_accept, option_block1, option_block2,
  option_etag, option_handshake_type, option_if_match, option_if_none_match, option_location_path,
  option_location_query, option_max_age, option_observe, option_proxy_security_id,
  option_selective_repeat_window_size, option_session_expired, option_session_not_found,
  option_size1, option_uri_path, option_uri_query, option_uri_scheme,
}
use coalago.Message.{Payload, CoapMessage, get_option, get_option_as_string, add_option}
use coalago.Options.{Value, CoapOption, string_value, int_value}

-- IsValidOption, of the option's code
unfoldable pub is_valid_option : ℕ → Bool
is_valid_option code =
    code == option_if_none_match
    || code == option_uri_scheme
    || code == option_uri_host
    || code == option_etag
    || code == option_if_match
    || code == option_observe
    || code == option_uri_port
    || code == option_location_path
    || code == option_uri_path
    || code == option_content_format
    || code == option_max_age
    || code == option_uri_query
    || code == option_accept
    || code == option_location_query
    || code == option_block2
    || code == option_block1
    || code == option_proxy_uri
    || code == option_proxy_security_id
    || code == option_proxy_scheme
    || code == option_size1
    || code == option_handshake_type
    || code == option_session_not_found
    || code == option_session_expired
    || code == option_selective_repeat_window_size
    || code == option_checksum

-- NewOption
unfoldable pub new_option : ℕ → Value → CoapOption
new_option code value = record { code = code; value = value }

-- GetOptionProxyURIasString
unfoldable pub get_option_proxy_uri_as_string : CoapMessage → List ℕ
get_option_proxy_uri_as_string m = get_option_as_string option_proxy_uri m

-- GetOptionProxyScheme; -1 without the option.
unfoldable pub get_option_proxy_scheme : CoapMessage → ℤ
get_option_proxy_scheme m = elim (get_option option_proxy_scheme m) [
  | none ↦ negsuc 0
  | some o ↦ int_value o.value
]

scheme_name : ℤ → List ℕ
scheme_name (pos n) =
    if n == coap_scheme then codes "coap" else if n == coaps_scheme then codes "coaps" else []
scheme_name (negsuc n) = []

-- GetOptionProxySchemeAsString
unfoldable pub get_option_proxy_scheme_as_string : CoapMessage → List ℕ
unfolding scheme_name
get_option_proxy_scheme_as_string m = scheme_name (get_option_proxy_scheme m)

-- GetURIHost
unfoldable pub get_uri_host : CoapMessage → List ℕ
get_uri_host m = elim (get_option option_uri_host m) [
  | none ↦ codes "localhost"
  | some o ↦ string_value o.value
]

-- GetURIPort
unfoldable pub get_uri_port : CoapMessage → ℤ
get_uri_port m = elim (get_option option_uri_port m) [ none ↦ pos 0 | some o ↦ int_value o.value ]

-- GetTokenLength and GetMessageIDString
unfoldable pub get_token_length : CoapMessage → ℕ
get_token_length m = length m.token % 256

unfoldable pub get_message_id_string : CoapMessage → List ℕ
get_message_id_string m = itoa m.message_id

-- IsProxied
unfoldable pub is_proxied : CoapMessage → Bool
is_proxied m = elim (get_option option_proxy_uri m) [ none ↦ false | some o ↦ true ]

-- SetProxy
unfoldable pub set_proxy : List ℕ → List ℕ → CoapMessage → CoapMessage
set_proxy scheme addr m =
    add_option option_proxy_uri (Value.str (scheme ++ (codes "://" ++ addr)))
      (record m { proxy_addr = addr })

-- SetMediaType, SetStringPayload, SetToken, SetChecksum and SetAddChecksumOnSend
unfoldable pub set_media_type : ℤ → CoapMessage → CoapMessage
set_media_type media m = add_option option_content_format (Value.media media) m

unfoldable pub set_string_payload : List ℕ → CoapMessage → CoapMessage
set_string_payload s m = record m { payload = some (Payload.string_payload s) }

unfoldable pub set_token : List ℕ → CoapMessage → CoapMessage
set_token t m = record m { token = t }

unfoldable pub set_checksum : List ℕ → CoapMessage → CoapMessage
set_checksum checksum m = add_option option_checksum (Value.str checksum) m

unfoldable pub set_add_checksum_on_send : Bool → CoapMessage → CoapMessage
set_add_checksum_on_send enabled m = record m { add_checksum_on_send = enabled }

-- GetChecksum
unfoldable pub get_checksum : CoapMessage → List ℕ
get_checksum m = get_option_as_string option_checksum m

-- GetProxyKeyReceiver, GetProxyKeySender, GetACKKeyForSend and GetACKKeyForReceive; the sender's
-- address is an argument, where the code calls String on it.
unfoldable pub get_proxy_key : List ℕ → CoapMessage → List ℕ
get_proxy_key address m = m.token ++ address

unfoldable pub get_ack_key : List ℕ → CoapMessage → List ℕ
get_ack_key address m = address ++ (m.token ++ get_message_id_string m)
