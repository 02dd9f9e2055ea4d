-- ===== src/Checksum.antt =====
-- message.go: the checksum option, and Deserialize, which checks it.
pub mod Accepted
use coalago.Base.{
  ℕ, zero, suc, ◌+◌, ◌-◌, ◌*◌, ◌/◌, ◌%◌, Bool, true, false, Option, none, some, List, [], ◌∷◌, ◌++◌,
  ltb, ◌==◌, if◌then◌else◌, bytes_eq, bit_xor, filter,
}
use coalago.Codec.{serialize}
use coalago.Codec.Deserialize.{Returned, deserialize}
use coalago.Constants.{Error, option_checksum}
use coalago.Message.{
  Payload, CoapMessage, payload_bytes, zero_message, lacks_code, get_option, remove_options,
  add_option,
}
use coalago.Options.{Value, CoapOption, string_value}

-- hash/crc32 with the polynomial IEEE: `k` steps of one bit, and the update by the bytes.
crc_bits : ℕ → ℕ → ℕ
crc_bits zero crc = crc
crc_bits (suc k) crc = crc_bits k (if crc % 2 == 1 then bit_xor (crc / 2) 0xedb8_8320 else crc / 2)

crc_update : ℕ → List ℕ → ℕ
crc_update crc [] = crc
crc_update crc (b ∷ bs) = crc_update (crc_bits 8 (bit_xor crc b)) bs

-- crc32.ChecksumIEEE
unfoldable pub checksum_ieee : List ℕ → ℕ
unfolding crc_bits crc_update
checksum_ieee bs = bit_xor (crc_update 0xffff_ffff bs) 0xffff_ffff

-- fmt.Sprintf("%08x", v) of a 32-bit word: `k` hexadecimal digits, the lowest last.
hex_digit : ℕ → ℕ
hex_digit d = if ltb d 10 then b'0' + d else b'a' + d - 10

unfoldable pub hex : ℕ → ℕ → List ℕ
unfolding hex_digit
hex zero v = []
hex (suc k) v = hex k (v / 16) ++ (hex_digit (v % 16) ∷ [])

-- cloneForChecksum; the payload's bytes, the options but for the checksum.
unfoldable pub clone_for_checksum : CoapMessage → CoapMessage
clone_for_checksum m = record zero_message {
  message_id = m.message_id;
  type = m.type;
  code = m.code;
  token = m.token;
  payload = elim m.payload [
    | none ↦ some Payload.empty_payload
    | some p ↦ some (Payload.bytes_payload (payload_bytes p))
  ];
  options = filter (lacks_code option_checksum) m.options;
}

-- calculateChecksum; Serialize returns no error.
unfoldable pub calculate_checksum : CoapMessage → List ℕ
calculate_checksum m = hex 8 (checksum_ieee (serialize (clone_for_checksum m)).0)

-- applyChecksum
unfoldable pub apply_checksum : CoapMessage → CoapMessage
apply_checksum m =
    let m' = remove_options option_checksum m in
    add_option option_checksum (Value.str (calculate_checksum m')) m'

-- verifyChecksum
unfoldable pub verify_checksum : CoapMessage → Option Error
verify_checksum m = elim (get_option option_checksum m) [
  | none ↦ none
  | some o ↦
      if bytes_eq (string_value o.value) (calculate_checksum m)
      then none
      else some Error.checksum_mismatch
]

-- Deserialize: what it makes of the message and the error of deserialize.
unfoldable pub check_message : Option CoapMessage → Option Error → Returned
check_message m (some e) = record { message = m; error = some e }
check_message none none = record { message = none; error = some Error.nil_message }
check_message (some m) none = elim (verify_checksum m) [
  | none ↦ record { message = some m; error = none }
  | some e ↦ record { message = none; error = some Error.checksum_mismatch }
]

-- Deserialize
unfoldable pub deserialize_checked : List ℕ → Returned
deserialize_checked bs = let r = deserialize bs in check_message r.message r.error
