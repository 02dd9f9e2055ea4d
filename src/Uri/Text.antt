-- ===== src/Uri/Text.antt =====
-- message.go: the URI of a message as a text.
use coalago.Base.{
  ℕ, ◌+◌, ◌-◌, ◌/◌, ◌%◌, Bool, none, some, List, [], ◌∷◌, ◌++◌, ◌==◌, ◌&&◌, ◌||◌, ltb, leb, length,
  map, if◌then◌else◌,
}
use coalago.Base.Text.{codes, join}
use coalago.Message.{CoapMessage}
use coalago.Uri.{get_scheme_string, get_uri_path, get_uri_query_array, split_pair}

-- url.QueryEscape: letters, digits and "-_.~" stay, a space is a plus, all else is "%XX".
is_unreserved : ℕ → Bool
is_unreserved b =
    (leb b'a' b && leb b b'z')
    || (leb b'A' b && leb b b'Z')
    || (leb b'0' b && leb b b'9')
    || b == b'-'
    || b == b'_'
    || b == b'.'
    || b == b'~'

upper_hex : ℕ → ℕ
upper_hex d = if ltb d 10 then b'0' + d else b'A' + d - 10

escaped_byte : ℕ → List ℕ
unfolding is_unreserved upper_hex
escaped_byte b =
    if is_unreserved b
    then b ∷ []
    else if b == b' '
    then b'+' ∷ []
    else b'%' ∷ upper_hex (b / 16) ∷ upper_hex (b % 16) ∷ []

unfoldable pub query_escape : List ℕ → List ℕ
unfolding escaped_byte
query_escape [] = []
query_escape (b ∷ bs) = escaped_byte b ++ query_escape bs

-- parseOneQuery: nothing without a "=", or with one in the first place.
unfoldable pub parse_one_query : List ℕ → List ℕ
parse_one_query q = elim (split_pair q) [
  | none ↦ []
  | some (k, v) ↦ if length k == 0 then [] else query_escape k ++ (b'=' ∷ query_escape v)
]

-- GetURIQueryString
unfoldable pub get_uri_query_string : CoapMessage → List ℕ
get_uri_query_string m = join (map parse_one_query (get_uri_query_array m)) (b'&' ∷ [])

-- GetURI
unfoldable pub get_uri : List ℕ → CoapMessage → List ℕ
get_uri host m =
    let result = get_scheme_string m ++ (codes "://" ++ (host ++ get_uri_path m)) in
    let query = get_uri_query_string m in
    if ltb 0 (length query) then result ++ (b'?' ∷ query) else result
