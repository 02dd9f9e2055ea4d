-- ===== src/Options.antt =====
-- options.go: an option, the dynamic type of its value, and the conversions of that value.
use coalago.Base.{ℕ, ◌-◌, ◌/◌, ◌%◌, Bool, Option, none, some, List, [], ◌==◌, ◌||◌, if◌then◌else◌}
use coalago.Base.Int.{ℤ, pos, negsuc, to_word}
use coalago.Base.Text.{atoi}
use coalago.Constants.{
  option_if_match, option_etag, option_location_path, option_uri_path, option_uri_query,
  option_location_query,
}

-- The dynamic type and value of an `interface{}`; `other` is any type that no switch of the source
-- names.
pub data Value : Type 0 where
  nil : Value
  str : List ℕ → Value
  bytes : List ℕ → Value
  media : ℤ → Value
  int : ℤ → Value
  int8 : ℤ → Value
  int16 : ℤ → Value
  int32 : ℤ → Value
  uint : ℕ → Value
  uint8 : ℕ → Value
  uint16 : ℕ → Value
  uint32 : ℕ → Value
  other : Value

pub record CoapOption : Type 0 where
  pub code : ℕ
  pub value : Value

-- CoAPMessageOption.StringValue
unfoldable pub string_value : Value → List ℕ
string_value (Value.str s) = s
string_value v = []

atoi_or_zero : Option ℤ → ℤ
atoi_or_zero none = pos 0
atoi_or_zero (some n) = n

-- A uint at or above 2 ^ 63 becomes negative as an int.
uint_to_int : ℕ → ℤ
uint_to_int n = if n / 0x8000_0000_0000_0000 == 0 then pos n else negsuc (0xffff_ffff_ffff_ffff - n)

-- CoAPMessageOption.IntValue
unfoldable pub int_value : Value → ℤ
unfolding atoi_or_zero uint_to_int
int_value Value.nil = pos 0
int_value (Value.media n) = n
int_value (Value.int n) = n
int_value (Value.int8 n) = n
int_value (Value.int16 n) = n
int_value (Value.int32 n) = n
int_value (Value.uint n) = uint_to_int n
int_value (Value.uint8 n) = pos n
int_value (Value.uint16 n) = pos n
int_value (Value.uint32 n) = pos n
int_value (Value.str s) = atoi_or_zero (atoi s)
int_value (Value.bytes s) = pos 0
int_value Value.other = pos 0

-- The conversion that Uint32Value and Uint16Value make, to a word of modulus `m`.
word_value : ℕ → Value → ℕ
unfolding atoi_or_zero
word_value m Value.nil = 0
word_value m (Value.media n) = to_word m n
word_value m (Value.int n) = to_word m n
word_value m (Value.int8 n) = to_word m n
word_value m (Value.int16 n) = to_word m n
word_value m (Value.int32 n) = to_word m n
word_value m (Value.uint n) = n % m
word_value m (Value.uint8 n) = n % m
word_value m (Value.uint16 n) = n % m
word_value m (Value.uint32 n) = n % m
word_value m (Value.str s) = to_word m (atoi_or_zero (atoi s))
word_value m (Value.bytes s) = 0
word_value m Value.other = 0

-- CoAPMessageOption.Uint32Value
unfoldable pub uint32_value : Value → ℕ
unfolding word_value
uint32_value v = word_value 0x1_0000_0000 v

-- CoAPMessageOption.Uint16Value
unfoldable pub uint16_value : Value → ℕ
unfolding word_value
uint16_value v = word_value 0x1_0000 v

-- CoAPMessageOption.IsElective
unfoldable pub is_elective : CoapOption → Bool
is_elective o = o.code % 2 == 0

-- CoAPMessageOption.IsCritical
unfoldable pub is_critical : CoapOption → Bool
is_critical o = o.code % 2 == 1

-- CoAPMessageOption.IsRepeatableOption, of the option's code
unfoldable pub is_repeatable_option : ℕ → Bool
is_repeatable_option code =
    code == option_if_match
    || code == option_etag
    || code == option_location_path
    || code == option_uri_path
    || code == option_uri_query
    || code == option_location_query
