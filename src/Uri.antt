-- ===== src/Uri.antt =====
-- message.go: the scheme, the path and the query of a message.
pub mod Path
pub mod Text
use coalago.Base.{
  ℕ, Bool, true, false, Option, none, some, List, [], ◌∷◌, ◌++◌, ◌==◌, ◌&&◌, length, bytes_eq, map,
  if◌then◌else◌, not,
}
use coalago.Base.Int.{ℤ, pos, negsuc}
use coalago.Base.Text.{codes, join, split}
use coalago.Constants.{
  coap_scheme, coaps_scheme, option_uri_scheme, option_uri_path, option_uri_query,
}
use coalago.Message.{CoapMessage, get_option, get_options, get_options_as_string, add_option}
use coalago.Options.{Value, string_value, int_value}

is_coaps : ℤ → Bool
is_coaps (pos n) = n == coaps_scheme
is_coaps (negsuc n) = false

is_nil : Value → Bool
is_nil Value.nil = true
is_nil _ = false

-- GetScheme
unfoldable pub get_scheme : CoapMessage → ℕ
unfolding is_coaps is_nil
get_scheme m = elim (get_option option_uri_scheme m) [
  | none ↦ coap_scheme
  | some o ↦
      if not (is_nil o.value) && is_coaps (int_value o.value) then coaps_scheme else coap_scheme
]

-- GetSchemeString
unfoldable pub get_scheme_string : CoapMessage → List ℕ
unfolding get_scheme
get_scheme_string m = if get_scheme m == coaps_scheme then codes "coaps" else codes "coap"

-- SetSchemeCOAP and SetSchemeCOAPS
unfoldable pub set_scheme_coap : CoapMessage → CoapMessage
set_scheme_coap m = add_option option_uri_scheme (Value.int (pos coap_scheme)) m

unfoldable pub set_scheme_coaps : CoapMessage → CoapMessage
set_scheme_coaps m = add_option option_uri_scheme (Value.int (pos coaps_scheme)) m

-- GetURIPath
unfoldable pub get_uri_path : CoapMessage → List ℕ
get_uri_path m = b'/' ∷ join (get_options_as_string option_uri_path m) (b'/' ∷ [])

-- The loop of SetURIPath over the parts of the path.
unfoldable pub add_path_parts : List (List ℕ) → CoapMessage → CoapMessage
add_path_parts [] m = m
add_path_parts (part ∷ parts) m =
    add_path_parts parts
      (if length part == 0 then m else add_option option_uri_path (Value.str part) m)

-- SetURIPath
unfoldable pub set_uri_path : List ℕ → CoapMessage → CoapMessage
set_uri_path full_path m = add_path_parts (split full_path b'/') m

-- SetURIQuery
unfoldable pub set_uri_query : List ℕ → List ℕ → CoapMessage → CoapMessage
set_uri_query k v m = add_option option_uri_query (Value.str (k ++ (b'=' ∷ v))) m

-- GetURIQueryArray
unfoldable pub get_uri_query_array : CoapMessage → List (List ℕ)
get_uri_query_array m = map (λ o. string_value o.value) (get_options option_uri_query m)

-- strings.SplitN by "=" into two: what stands before the first "=", and what behind it.
unfoldable pub split_pair : List ℕ → Option (List ℕ × List ℕ)
split_pair [] = none
split_pair (b ∷ bs) =
    let rest = split_pair bs in
    if b == b'=' then some ([], bs) else elim rest [ none ↦ none | some (k, v) ↦ some (b ∷ k, v) ]

query_value : List ℕ → List (List ℕ) → List ℕ
query_value q [] = []
query_value q (s ∷ ss) =
    let rest = query_value q ss in
    elim (split_pair s) [ none ↦ rest | some (k, v) ↦ if bytes_eq k q then v else rest ]

-- GetURIQuery
unfoldable pub get_uri_query : List ℕ → CoapMessage → List ℕ
unfolding query_value
get_uri_query q m = query_value q (get_uri_query_array m)
