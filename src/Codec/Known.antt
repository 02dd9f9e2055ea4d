-- ===== src/Codec/Known.antt =====
-- The options that deserialize knows, against those that IsValidOption lists.
use coalago.Base.{ℕ, ◌≡◌, not, ◌&&◌, ◌||◌, ◌==◌, arith}
use coalago.Codec.Deserialize.{is_int_code, is_string_code}
use coalago.Constants.{option_if_match, option_if_none_match, option_size2, option_coaps_uri}
use coalago.Message.Accessors.{is_valid_option}

-- IsValidOption lists the codes that deserialize has a case for, but for Size2 and the coaps URI, and
-- besides them If-Match and If-None-Match, which deserialize does not know.
pub is_valid_option-known :
    (c : ℕ)
    → is_valid_option c
      ≡ ((is_int_code c || is_string_code c) && not (c == option_size2 || c == option_coaps_uri))
        || (c == option_if_match || c == option_if_none_match)
unfolding is_valid_option is_int_code is_string_code
is_valid_option-known c = ground arith
