-- ===== src/Constants/Names.antt =====
-- common.go: the names of message types and options, in a readable message.
use Prim.Native.String.{String}
use coalago.Base.{ℕ, ◌==◌, if◌then◌else◌}
use coalago.Constants.{
  con, non, ack, rst, option_accept, option_block1, option_block2, option_checksum,
  option_coaps_uri, option_content_format, option_etag, option_handshake_type, option_if_match,
  option_if_none_match, option_location_path, option_location_query, option_max_age, option_observe,
  option_proxy_scheme, option_proxy_security_id, option_proxy_uri,
  option_selective_repeat_window_size, option_session_expired, option_session_not_found,
  option_size1, option_size2, option_uri_host, option_uri_path, option_uri_port, option_uri_query,
  option_uri_scheme,
}

-- typeString
pub type_string : ℕ → String
type_string c =
    if c == con
    then "CON"
    else if c == non
    then "NON"
    else if c == ack
    then "ACK"
    else if c == rst
    then "RST"
    else ""

-- optionCodeToString
pub option_code_to_string : ℕ → String
option_code_to_string option =
    if option == option_if_match
    then "IfMatch"
    else if option == option_uri_host
    then "URIHost"
    else if option == option_etag
    then "Etag"
    else if option == option_if_none_match
    then "IfNoneMatch"
    else if option == option_observe
    then "Observe"
    else if option == option_uri_port
    then "URIPort"
    else if option == option_location_path
    then "LocationPath"
    else if option == option_uri_path
    then "URIPath"
    else if option == option_content_format
    then "ContentFormat"
    else if option == option_max_age
    then "MaxAge"
    else if option == option_uri_query
    then "URIQuery"
    else if option == option_accept
    then "Accept"
    else if option == option_location_query
    then "LocationQuery"
    else if option == option_block2
    then "Block2"
    else if option == option_block1
    then "Block1"
    else if option == option_size2
    then "Size2"
    else if option == option_proxy_uri
    then "ProxyURI"
    else if option == option_proxy_scheme
    then "ProxyScheme"
    else if option == option_size1
    then "Size1"
    else if option == option_uri_scheme
    then "URIScheme"
    else if option == option_handshake_type
    then "HandshakeType"
    else if option == option_session_not_found
    then "SessionNotFound"
    else if option == option_session_expired
    then "SessionExpired"
    else if option == option_selective_repeat_window_size
    then "OptionSelectiveRepeatWindowSize"
    else if option == option_coaps_uri
    then "OptionСoapsUri"
    else if option == option_proxy_security_id
    then "OptionSecurityID"
    else if option == option_checksum
    then "Checksum"
    else "Unknown"
