-- ===== src/Constants/OptionCodes.antt =====
-- constants.go: OptionCode and CoapHandshakeType.
use coalago.Base.{ℕ}

-- OptionCode
abbrev pub option_if_match : ℕ
option_if_match = 1

abbrev pub option_uri_host : ℕ
option_uri_host = 3

abbrev pub option_etag : ℕ
option_etag = 4

abbrev pub option_if_none_match : ℕ
option_if_none_match = 5

abbrev pub option_observe : ℕ
option_observe = 6

abbrev pub option_uri_port : ℕ
option_uri_port = 7

abbrev pub option_location_path : ℕ
option_location_path = 8

abbrev pub option_uri_path : ℕ
option_uri_path = 11

abbrev pub option_content_format : ℕ
option_content_format = 12

abbrev pub option_max_age : ℕ
option_max_age = 14

abbrev pub option_uri_query : ℕ
option_uri_query = 15

abbrev pub option_accept : ℕ
option_accept = 17

abbrev pub option_location_query : ℕ
option_location_query = 20

abbrev pub option_block2 : ℕ
option_block2 = 23

abbrev pub option_block1 : ℕ
option_block1 = 27

abbrev pub option_size2 : ℕ
option_size2 = 28

abbrev pub option_proxy_uri : ℕ
option_proxy_uri = 35

abbrev pub option_proxy_scheme : ℕ
option_proxy_scheme = 39

abbrev pub option_size1 : ℕ
option_size1 = 60

abbrev pub option_uri_scheme : ℕ
option_uri_scheme = 2111

abbrev pub option_handshake_type : ℕ
option_handshake_type = 3999

abbrev pub option_session_not_found : ℕ
option_session_not_found = 4001

abbrev pub option_session_expired : ℕ
option_session_expired = 4003

abbrev pub option_selective_repeat_window_size : ℕ
option_selective_repeat_window_size = 3001

abbrev pub option_proxy_security_id : ℕ
option_proxy_security_id = 3004

abbrev pub option_coaps_uri : ℕ
option_coaps_uri = 4005

abbrev pub option_checksum : ℕ
option_checksum = 4006

-- CoapHandshakeType
abbrev pub client_hello : ℕ
client_hello = 1

abbrev pub peer_hello : ℕ
peer_hello = 2

abbrev pub client_signature : ℕ
client_signature = 3
