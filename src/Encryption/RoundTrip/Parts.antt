-- ===== src/Encryption/RoundTrip/Parts.antt =====
-- encryption.go: the parts of encrypt and decrypt, on the payload and on the options.
use mathlib.Core.List.{append-nil, append_assoc, map-append}
use coalago.Base.{
  ℕ, ◌+◌, ◌≡◌, refl, sym, ◌∙◌, false, Option, none, some, List, [], ◌∷◌, ◌++◌, ◌==◌, length, map,
  arith, Bool-cases, inl, inr,
}
use coalago.Constants.{option_uri_path, option_uri_query}
use coalago.Encryption.{Query, set_queries, through}
use coalago.Message.{
  Payload, CoapMessage, payload_bytes, payload_length, get_options, get_option,
  get_options_as_string, remove_options, add_option,
}
use coalago.Message.OptionLists.{get_options-add_option, get_options-remove_options}
use coalago.Options.{Value, string_value, is_repeatable_option}
use coalago.Results.{Result}
use coalago.Session.{Primitives, Aead, open_text, seal_text}
use coalago.Session.Agreement.{Reads}
use coalago.Uri.{
  get_scheme, get_scheme_string, get_uri_path, add_path_parts, set_uri_path, set_uri_query,
  get_uri_query_array,
}
use coalago.Uri.Text.{get_uri, get_uri_query_string}
use coalago.Base.Text.{split}

-- The bytes of a payload; none for nil.
unfoldable pub bytes_of : Option Payload → List ℕ
unfolding payload_bytes
bytes_of none = []
bytes_of (some load) = payload_bytes load

pub payload_other :
    (id : ℕ) (m : CoapMessage) (o : Option Payload)
    → get_options id (record m { payload = o }) ≡ get_options id m
unfolding get_options
payload_other id m o = refl

-- AddOption, RemoveOptions, SetURIPath and the queries leave the options with other codes.
pub add_option_other :
    (id code : ℕ) (v : Value) (m : CoapMessage)
    → (code == id) ≡ false
    → get_options id (add_option code v m) ≡ get_options id m
add_option_other id code v m e = get_options-add_option id code v m ∙ rw e refl

pub remove_options_other :
    (id code : ℕ) (m : CoapMessage)
    → (code == id) ≡ false
    → get_options id (remove_options code m) ≡ get_options id m
remove_options_other id code m e = get_options-remove_options id code m ∙ rw e refl

add_path_parts_other :
    (id : ℕ) (parts : List (List ℕ)) (m : CoapMessage)
    → (option_uri_path == id) ≡ false
    → get_options id (add_path_parts parts m) ≡ get_options id m
unfolding add_path_parts
add_path_parts_other id [] m e = refl
add_path_parts_other id (part ∷ parts) m e =
    add_path_parts_other id parts _ e ∙ elim (Bool-cases (length part == 0)) [
      | inl q ↦ rw q refl
      | inr q ↦ rw q (add_option_other id option_uri_path (Value.str part) m e)
    ]

pub set_uri_path_other :
    (id : ℕ) (path : List ℕ) (m : CoapMessage)
    → (option_uri_path == id) ≡ false
    → get_options id (set_uri_path path m) ≡ get_options id m
unfolding set_uri_path
set_uri_path_other id path m e = add_path_parts_other id (split path b'/') m e

pub set_queries_other :
    (id : ℕ) (qs : List Query) (m : CoapMessage)
    → (option_uri_query == id) ≡ false
    → get_options id (set_queries qs m) ≡ get_options id m
unfolding set_queries set_uri_query
set_queries_other id [] m e = refl
set_queries_other id (q ∷ qs) m e =
    set_queries_other id qs (set_uri_query q.key q.first m) e
    ∙ add_option_other id option_uri_query _ m e

-- A key and its first value as their option holds them.
abbrev pub query_text : Query → List ℕ
query_text q = q.key ++ (b'=' ∷ q.first)

pub set_queries-array :
    (qs : List Query) (m : CoapMessage)
    → get_uri_query_array (set_queries qs m) ≡ get_uri_query_array m ++ map query_text qs
unfolding set_queries set_uri_query get_uri_query_array
set_queries-array [] m = sym (append-nil _)
set_queries-array (q ∷ qs) m =
    set_queries-array qs (set_uri_query q.key q.first m)
    ∙ rw (get_options-add_option option_uri_query option_uri_query (Value.str (query_text q)) m)
        (unfold is_repeatable_option string_value in (rw (map-append, append_assoc) refl))

-- What the payload comes to: the one end seals it and the other opens it.
pub through_both :
    (p : Primitives) (from to : Aead p) (reads : Reads p from to) (id : ℕ) (o : Option Payload)
    → (o' o'' : Option Payload) × (through (λ b. seal_text p from b id []) o ≡ Result.ok o')
      × (through (λ b. open_text p to b id []) o' ≡ Result.ok o'')
      × (bytes_of o'' ≡ bytes_of o)
unfolding through payload_length bytes_of
through_both p from to reads id none = (none, none, refl, refl, refl)
through_both p from to reads id (some load) = elim (Bool-cases (length (payload_bytes load) == 0)) [
  | inl e ↦ (some load, some load, rw e refl, rw e refl, refl)
  | inr e ↦
      let (sealed, sealing, long, opening) = reads (payload_bytes load) [] id in
      (
        some (Payload.bytes_payload sealed),
        some (Payload.bytes_payload (payload_bytes load)),
        rw (e, sealing) refl,
        rw (nonempty sealed (length (payload_bytes load)) long, opening) refl,
        refl,
      )
]
  where
    nonempty : (s : List ℕ) (n : ℕ) → length s ≡ n + 16 → (length s == 0) ≡ false
    nonempty s n e = ground arith

pub get_uri_payload :
    (address : List ℕ) (m : CoapMessage) (o : Option Payload)
    → get_uri address (record m { payload = o }) ≡ get_uri address m
unfolding get_uri
get_uri_payload address m o =
    unfold get_scheme_string get_scheme get_uri_path get_uri_query_string get_uri_query_array
      get_options get_option get_options_as_string in
    refl
