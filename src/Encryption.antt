-- ===== src/Encryption.antt =====
-- encryption.go: a message of a secured session.
pub mod Ready
pub mod RoundTrip
use coalago.Base.{ℕ, Option, none, some, List, [], ◌∷◌, ◌++◌, ◌==◌, not, length, if◌then◌else◌}
use coalago.Constants.{Error, option_coaps_uri, option_uri_path, option_uri_query}
use coalago.Message.{
  Payload, CoapMessage, payload_bytes, payload_length, get_option, remove_options, add_option,
}
use coalago.Options.{Value, string_value}
use coalago.Results.{Result, ◌>>=◌, or_fail}
use coalago.Session.{Primitives, Aead, open_text, seal_text}
use coalago.Uri.{set_uri_path, set_uri_query}
use coalago.Uri.Text.{get_uri}

-- An entry of url.Values: a key with its values, of which there is at least one.
pub record Query : Type 0 where
  pub key : List ℕ
  pub first : List ℕ
  pub others : List (List ℕ)

-- What the code uses of net/url: url.Parse, whose URL has a path and a raw query, and url.ParseQuery,
-- whose map is listed in the order of one range over it.
pub record ParsedUrl : Type 0 where
  pub path : List ℕ
  pub raw_query : List ℕ

pub record UrlParser : Type 0 where
  pub parse : List ℕ → Option ParsedUrl
  pub parse_query : List ℕ → Option (List Query)

-- The loop over the queries: SetURIQuery with the first value of each key. The client's test that there
-- is one always holds.
unfoldable pub set_queries : List Query → CoapMessage → CoapMessage
set_queries [] m = m
set_queries (q ∷ qs) m = set_queries qs (set_uri_query q.key q.first m)

-- A payload that is nil or empty stays; any other goes through `f`.
unfoldable pub through : (List ℕ → Result (List ℕ)) → Option Payload → Result (Option Payload)
through f none = Result.ok none
through f (some load) =
    if payload_length load == 0
    then Result.ok (some load)
    else (f (payload_bytes load) >>= λ b. Result.ok (some (Payload.bytes_payload b)))

unfoldable pub payload_through : (List ℕ → Result (List ℕ)) → CoapMessage → Result CoapMessage
payload_through f m = through f m.payload >>= λ load. Result.ok (record m { payload = load })

module _ (p : Primitives) (url : UrlParser) where
  -- encryptionOptions
  unfoldable pub encryption_options : CoapMessage → List ℕ → Aead p → Result CoapMessage
  encryption_options m address aead = do
    coaps_uri ← seal_text p aead (get_uri address m) m.message_id []
    Result.ok (
        add_option option_coaps_uri (Value.str coaps_uri)
          (remove_options option_uri_query (remove_options option_uri_path m)))

  -- encrypt
  unfoldable pub encrypt : CoapMessage → List ℕ → Aead p → Result CoapMessage
  encrypt m address aead = do
    m' ← payload_through (λ b. seal_text p aead b m.message_id []) m
    encryption_options m' address aead

  -- decryptionOptions
  unfoldable pub decryption_options : CoapMessage → Aead p → Result CoapMessage
  decryption_options m aead = elim (get_option option_coaps_uri m) [
    | none ↦ Result.ok m
    | some o ↦ open_text p aead (string_value o.value) m.message_id [] >>= λ coaps_uri.
        or_fail (url.parse coaps_uri) Error.url_failure >>= λ parsed.
        or_fail (url.parse_query parsed.raw_query) Error.url_failure >>= λ queries.
        Result.ok
          (remove_options option_coaps_uri (set_queries queries (set_uri_path parsed.path m)))
  ]

  -- decrypt
  unfoldable pub decrypt : CoapMessage → Aead p → Result CoapMessage
  decrypt m aead = do
    m' ← payload_through (λ b. open_text p aead b m.message_id []) m
    decryption_options m' aead
