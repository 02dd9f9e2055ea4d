-- ===== src/Constants.antt =====
-- constants.go: message types, schemes, limits and errors.
mod Codes
mod OptionCodes
pub mod CodeText
pub mod Names
pub use Codes.*
pub use OptionCodes.*
use coalago.Base.{ℕ}

-- CoapType
abbrev pub con : ℕ
con = 0

abbrev pub non : ℕ
non = 1

abbrev pub ack : ℕ
ack = 2

abbrev pub rst : ℕ
rst = 3

abbrev pub coap_scheme : ℕ
coap_scheme = 0

abbrev pub coaps_scheme : ℕ
coaps_scheme = 1

abbrev pub payload_marker : ℕ
payload_marker = 0xff

abbrev pub max_payload_size : ℕ
max_payload_size = 1024

abbrev pub default_window_size : ℕ
default_window_size = 300

abbrev pub min_window_size : ℕ
min_window_size = 50

abbrev pub max_window_size : ℕ
max_window_size = 1500

abbrev pub mtu : ℕ
mtu = 1500

abbrev pub max_send_attempts : ℕ
max_send_attempts = 6

-- The errors that the modelled functions return.
pub data Error : Type 0 where
  packet_length_less_than_4 : Error
  invalid_coap_version : Error
  option_length_uses_value_15 : Error
  option_delta_uses_value_15 : Error
  unknown_message_type : Error
  invalid_token_length : Error
  unknown_critical_option : Error
  nil_message : Error
  undefined_scheme : Error
  checksum_mismatch : Error
  max_attempts : Error
  session_not_found_error : Error
  client_session_not_found : Error
  session_expired_error : Error
  client_session_expired : Error
  handshake_error : Error
  unsupported_type : Error
  data_outside_of_type : Error
  invalid_option_delta : Error
  not_implemented : Error
  keys_not_match : Error
  public_key_length : Error
  private_key_creation : Error
  signatures_differ : Error
  key_lengths : Error
  cipher_failure : Error
  derivation_failure : Error
  authentication_failure : Error
  url_failure : Error
  proxy_disabled : Error
  timeout : Error
  network : ℕ → Error
