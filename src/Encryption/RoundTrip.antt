-- ===== src/Encryption/RoundTrip.antt =====
-- encryption.go: decrypt of what encrypt gives.
pub mod Parts
pub mod Sealed
use mathlib.Core.List.{append-nil, append_assoc, map-append}
use coalago.Base.{
  ℕ, ◌+◌, ◌≡◌, refl, sym, ap, ◌∙◌, false, Option, none, some, List, [], ◌∷◌, ◌++◌, ◌⊎◌, ◌==◌,
  length, map, All, arith, Bool-cases, inl, inr,
}
use coalago.Constants.{option_coaps_uri, option_uri_path, option_uri_query}
use coalago.Encryption.Ready.{set_queries-keeps}
use coalago.Encryption.{
  Query, ParsedUrl, UrlParser, set_queries, through, payload_through, encryption_options, encrypt,
  decryption_options, decrypt,
}
use coalago.Message.{
  Payload, CoapMessage, payload_bytes, payload_length, get_options, get_option,
  get_options_as_string, remove_options, add_option,
}
use coalago.Message.Fields.{add_option-keeps}
use coalago.Message.OptionLists.{
  get_options-add_option, get_options-remove_options, get_option-get_options,
}
use coalago.Options.{CoapOption, Value, string_value, is_repeatable_option}
use coalago.Results.{Result}
use coalago.Session.{Primitives, Aead, open_text, seal_text}
use coalago.Session.Agreement.{Reads}
use coalago.Uri.{
  get_scheme, get_scheme_string, get_uri_path, add_path_parts, set_uri_path, set_uri_query,
  get_uri_query_array,
}
use coalago.Uri.Path.{IsSegment, set_uri_path-get_uri_path, set_uri_path-keeps}
use coalago.Uri.Text.{get_uri, get_uri_query_string}
use coalago.Base.Text.{split}
use coalago.Encryption.RoundTrip.Parts.{
  payload_other, add_option_other, remove_options_other, set_uri_path_other, set_queries_other,
  set_queries-array, through_both, get_uri_payload, bytes_of, query_text,
}
use coalago.Encryption.RoundTrip.Sealed.{
  sealed_message, sealed-keeps, decrypted, opened_message, opened-keeps, opened_other, opened-path,
  opened-query,
}

module _ (p : Primitives) (url : UrlParser) (from to : Aead p) (reads : Reads p from to) where
  -- The cipher of the one end and that of the other: decrypt of what encrypt gives has the bytes of
  -- the payload, the path, for each key that url.ParseQuery lists a query with the first of its values, the token, and the options with
  -- other codes; where url.Parse reads the message's path from its URI, and each path segment is
  -- nonempty and without a slash.
  pub decrypt-encrypt :
      (m : CoapMessage) (address : List ℕ) (parsed : ParsedUrl) (qs : List Query)
      → url.parse (get_uri address m) ≡ some parsed
      → parsed.path ≡ get_uri_path m
      → url.parse_query parsed.raw_query ≡ some qs
      → All IsSegment (get_options_as_string option_uri_path m)
      → (sealed opened : CoapMessage) × (encrypt p url m address from ≡ Result.ok sealed)
        × (decrypt p url sealed to ≡ Result.ok opened)
        × (bytes_of opened.payload ≡ bytes_of m.payload)
        × (get_options_as_string option_uri_path opened ≡ get_options_as_string option_uri_path m)
        × (get_uri_query_array opened ≡ map query_text qs)
        × (opened.token ≡ m.token)
        × ((id : ℕ)
            → (option_uri_path == id) ≡ false
            → (option_uri_query == id) ≡ false
            → (option_coaps_uri == id) ≡ false
            → get_options id opened ≡ get_options id m)
  decrypt-encrypt m address parsed qs parsing path querying segments =
      let (o, o', sealing, opening, bytes) = through_both p from to reads m.message_id m.payload in
      let (coaps, uri_sealing, long, uri_opening) = reads (get_uri address m) [] m.message_id in
      (
        sealed_message m o coaps,
        opened_message m o o' coaps parsed.path qs,
        encrypted m address o coaps sealing uri_sealing,
        decrypted p url to m o o' coaps (get_uri address m) parsed qs opening uri_opening parsing
            querying,
        ap bytes_of (payload_opened m o o' coaps parsed.path qs) ∙ bytes,
        rw path (opened-path m o o' coaps qs segments),
        opened-query m o o' coaps parsed.path qs,
        token_opened m o o' coaps parsed.path qs,
        λ id a b c. opened_other id m o o' coaps parsed.path qs a b c,
      )
    where
      encrypted :
          (n : CoapMessage) (a : List ℕ) (o : Option Payload) (coaps : List ℕ)
          → through (λ b. seal_text p from b n.message_id []) n.payload ≡ Result.ok o
          → seal_text p from (get_uri a n) n.message_id [] ≡ Result.ok coaps
          → encrypt p url n a from ≡ Result.ok (sealed_message n o coaps)
      encrypted n a o coaps e f =
          unfold encrypt payload_through encryption_options sealed_message in
          rw (e, get_uri_payload a n o, f) refl

      payload_opened :
          (n : CoapMessage) (o o' : Option Payload) (coaps route : List ℕ) (queries : List Query)
          → (opened_message n o o' coaps route queries).payload ≡ o'
      payload_opened n o o' coaps route queries =
          opened-keeps (λ x. x.payload) (λ x os. refl) n o o' coaps route queries

      token_opened :
          (n : CoapMessage) (o o' : Option Payload) (coaps route : List ℕ) (queries : List Query)
          → (opened_message n o o' coaps route queries).token ≡ n.token
      token_opened n o o' coaps route queries =
          opened-keeps (λ x. x.token) (λ x os. refl) n o o' coaps route queries
          ∙ sealed-keeps (λ x. x.token) (λ x os. refl) n o coaps
