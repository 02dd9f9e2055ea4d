-- ===== src/Encryption/RoundTrip/Sealed.antt =====
-- encryption.go: the message that encrypt gives, and what decrypt makes of it.

use coalago.Base.{
  ℕ, ◌≡◌, refl, ap, ◌∙◌, false, Option, some, List, [], ◌++◌, ◌⊎◌, ◌==◌, map, All, inl, inr,
}
use coalago.Constants.{option_coaps_uri, option_uri_path, option_uri_query}
use coalago.Encryption.Ready.{set_queries-keeps}
use coalago.Encryption.{
  Query, ParsedUrl, UrlParser, set_queries, through, payload_through, decryption_options, decrypt,
}
use coalago.Message.{
  Payload, CoapMessage, get_options, get_option, get_options_as_string, remove_options, add_option,
}
use coalago.Message.Fields.{add_option-keeps}
use coalago.Message.OptionLists.{
  get_options-add_option, get_options-remove_options, get_option-get_options,
}
use coalago.Options.{CoapOption, Value, string_value, is_repeatable_option}
use coalago.Results.{Result}
use coalago.Session.{Primitives, Aead, open_text}
use coalago.Uri.{get_uri_path, set_uri_path, get_uri_query_array}
use coalago.Uri.Path.{IsSegment, set_uri_path-get_uri_path, set_uri_path-keeps}
use coalago.Encryption.RoundTrip.Parts.{
  payload_other, add_option_other, remove_options_other, set_uri_path_other, set_queries_other,
  set_queries-array, query_text,
}

-- The message that encrypt gives, with the sealed payload and URI.
unfoldable pub sealed_message : CoapMessage → Option Payload → List ℕ → CoapMessage
sealed_message m o coaps =
    add_option option_coaps_uri (Value.str coaps)
      (remove_options option_uri_query (remove_options option_uri_path (record m { payload = o })))

pub sealed-keeps :
    {X : Type 0} (f : CoapMessage → X)
    → ((n : CoapMessage) (os : List CoapOption) → f (record n { options = os }) ≡ f n)
    → (m : CoapMessage) (o : Option Payload) (coaps : List ℕ)
    → f (sealed_message m o coaps) ≡ f (record m { payload = o })
unfolding sealed_message
sealed-keeps f ignores m o coaps =
    add_option-keeps f ignores option_coaps_uri (Value.str coaps)
      (remove_options option_uri_query (remove_options option_uri_path (record m { payload = o })))
    ∙ removed option_uri_query (remove_options option_uri_path (record m { payload = o }))
    ∙ removed option_uri_path (record m { payload = o })
  where
    removed : (code : ℕ) (n : CoapMessage) → f (remove_options code n) ≡ f n
    removed code n = unfold remove_options in (ignores n _)

sealed_other :
    (id : ℕ) (m : CoapMessage) (o : Option Payload) (coaps : List ℕ)
    → (option_uri_path == id) ≡ false
    → (option_uri_query == id) ≡ false
    → (option_coaps_uri == id) ≡ false
    → get_options id (sealed_message m o coaps) ≡ get_options id m
unfolding sealed_message
sealed_other id m o coaps a b c =
    add_option_other id option_coaps_uri _ _ c
    ∙ remove_options_other id option_uri_query _ b
    ∙ remove_options_other id option_uri_path _ a
    ∙ payload_other id m o

-- A sealed message has no path and no query.
sealed_gone :
    (id : ℕ) (m : CoapMessage) (o : Option Payload) (coaps : List ℕ)
    → (id ≡ option_uri_path) ⊎ (id ≡ option_uri_query)
    → get_options id (sealed_message m o coaps) ≡ []
unfolding sealed_message
sealed_gone id m o coaps (inl e) =
    rw (e, get_options-add_option, get_options-remove_options, get_options-remove_options) refl
sealed_gone id m o coaps (inr e) = rw (e, get_options-add_option, get_options-remove_options) refl

coaps_option :
    (m : CoapMessage) (o o' : Option Payload) (coaps : List ℕ)
    → get_option option_coaps_uri (record (sealed_message m o coaps) { payload = o' })
      ≡ some (record { code = option_coaps_uri; value = Value.str coaps })
unfolding sealed_message get_option
coaps_option m o o' coaps =
    get_option-get_options option_coaps_uri (sealed_message m o coaps)
    ∙ rw (get_options-add_option option_coaps_uri option_coaps_uri (Value.str coaps) _)
        (unfold is_repeatable_option in refl)

-- What decrypt makes of it.
unfoldable pub opened_message :
    CoapMessage → Option Payload → Option Payload → List ℕ → List ℕ → List Query → CoapMessage
opened_message m o o' coaps path qs =
    remove_options option_coaps_uri
      (set_queries qs (set_uri_path path (record (sealed_message m o coaps) { payload = o' })))

pub opened-keeps :
    {X : Type 0} (f : CoapMessage → X)
    → ((n : CoapMessage) (os : List CoapOption) → f (record n { options = os }) ≡ f n)
    → (m : CoapMessage) (o o' : Option Payload) (coaps path : List ℕ) (qs : List Query)
    → f (opened_message m o o' coaps path qs)
      ≡ f (record (sealed_message m o coaps) { payload = o' })
unfolding opened_message
opened-keeps f ignores m o o' coaps path qs =
    removed option_coaps_uri _
    ∙ set_queries-keeps f ignores qs _
    ∙ set_uri_path-keeps f ignores path _
  where
    removed : (code : ℕ) (n : CoapMessage) → f (remove_options code n) ≡ f n
    removed code n = unfold remove_options in (ignores n _)

pub opened_other :
    (id : ℕ) (m : CoapMessage) (o o' : Option Payload) (coaps path : List ℕ) (qs : List Query)
    → (option_uri_path == id) ≡ false
    → (option_uri_query == id) ≡ false
    → (option_coaps_uri == id) ≡ false
    → get_options id (opened_message m o o' coaps path qs) ≡ get_options id m
unfolding opened_message
opened_other id m o o' coaps path qs a b c =
    remove_options_other id option_coaps_uri _ c
    ∙ set_queries_other id qs _ b
    ∙ set_uri_path_other id path _ a
    ∙ payload_other _ _ _
    ∙ sealed_other id m o coaps a b c

pub opened-path :
    (m : CoapMessage) (o o' : Option Payload) (coaps : List ℕ) (qs : List Query)
    → All IsSegment (get_options_as_string option_uri_path m)
    → get_options_as_string option_uri_path (opened_message m o o' coaps (get_uri_path m) qs)
      ≡ get_options_as_string option_uri_path m
unfolding opened_message
opened-path m o o' coaps qs segments =
    same _ _ (remove_options_other option_uri_path option_coaps_uri _ refl)
    ∙ same _ _ (set_queries_other option_uri_path qs _ refl)
    ∙ set_uri_path-get_uri_path (record (sealed_message m o coaps) { payload = o' }) m segments
        (same_empty _ (payload_other _ _ _ ∙ sealed_gone option_uri_path m o coaps (inl refl)))
  where
    same :
        (x y : CoapMessage)
        → get_options option_uri_path x ≡ get_options option_uri_path y
        → get_options_as_string option_uri_path x ≡ get_options_as_string option_uri_path y
    same x y e = unfold get_options_as_string in rw e refl

    same_empty :
        (x : CoapMessage)
        → get_options option_uri_path x ≡ []
        → get_options_as_string option_uri_path x ≡ []
    same_empty x e = unfold get_options_as_string in rw e refl

pub opened-query :
    (m : CoapMessage) (o o' : Option Payload) (coaps path : List ℕ) (qs : List Query)
    → get_uri_query_array (opened_message m o o' coaps path qs) ≡ map query_text qs
unfolding opened_message
opened-query m o o' coaps path qs =
    same _ _ (remove_options_other option_uri_query option_coaps_uri _ refl)
    ∙ set_queries-array qs _
    ∙ ap (λ x. x ++ map query_text qs)
        (same_empty _ (
          set_uri_path_other option_uri_query path _ refl
          ∙ payload_other _ _ _
          ∙ sealed_gone option_uri_query m o coaps (inr refl)))
  where
    same :
        (x y : CoapMessage)
        → get_options option_uri_query x ≡ get_options option_uri_query y
        → get_uri_query_array x ≡ get_uri_query_array y
    same x y e = unfold get_uri_query_array in rw e refl

    same_empty :
        (x : CoapMessage) → get_options option_uri_query x ≡ [] → get_uri_query_array x ≡ []
    same_empty x e = unfold get_uri_query_array in rw e refl

module _ (p : Primitives) (url : UrlParser) (to : Aead p) where
  pub decrypted :
      (m : CoapMessage) (o o' : Option Payload) (coaps uri : List ℕ) (parsed : ParsedUrl)
      (qs : List Query)
      → through (λ b. open_text p to b m.message_id []) o ≡ Result.ok o'
      → open_text p to coaps m.message_id [] ≡ Result.ok uri
      → url.parse uri ≡ some parsed
      → url.parse_query parsed.raw_query ≡ some qs
      → decrypt p url (sealed_message m o coaps) to
        ≡ Result.ok (opened_message m o o' coaps parsed.path qs)
  unfolding decrypt payload_through decryption_options opened_message sealed_message add_option
  decrypted m o o' coaps uri parsed qs load opening parsing querying =
      rw (id_kept, payload_kept, load) (opened_rest)
    where
      id_kept : (sealed_message m o coaps).message_id ≡ m.message_id
      id_kept = sealed-keeps (λ n. n.message_id) (λ n os. refl) m o coaps

      payload_kept : (sealed_message m o coaps).payload ≡ o
      payload_kept = sealed-keeps (λ n. n.payload) (λ n os. refl) m o coaps

      opened_rest :
          decryption_options p url (record (sealed_message m o coaps) { payload = o' }) to
          ≡ Result.ok (opened_message m o o' coaps parsed.path qs)
      opened_rest =
          rw (coaps_option m o o' coaps, decryption_options)
            (unfold string_value in rw (id_kept, opening, parsing, querying) refl)
