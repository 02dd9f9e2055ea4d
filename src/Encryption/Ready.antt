-- ===== src/Encryption/Ready.antt =====
-- encryption.go: with both ciphers, neither encrypt nor decrypt panics.
use coalago.Base.{
  Option, some, ℕ, ◌≡◌, ◌≢◌, refl, none, List, [], ◌∷◌, Option-cases, inl, inr, sym, ◌∙◌,
}
use coalago.Constants.{option_coaps_uri}
use coalago.Encryption.{
  Query, UrlParser, set_queries, through, payload_through, encryption_options, encrypt,
  decryption_options, decrypt,
}
use coalago.Message.{Payload, CoapMessage, get_option, remove_options}
use coalago.Message.Fields.{add_option-keeps}
use coalago.Options.{CoapOption}
use coalago.Results.{Result}
use coalago.Session.{Primitives, Aead}
use coalago.Session.Ready.{
  Gives, IsReady, Anything, gives_rules, bind-Gives, open_text-Gives, seal_text-Gives,
}
use coalago.Uri.{set_uri_path, set_uri_query}
use coalago.Uri.Path.{set_uri_path-keeps}

-- The payload is not nil.
pub record HasPayload (m : CoapMessage) : Type 0 where
  pub payload_there : m.payload ≢ none

-- The queries change nothing but the options.
module _ {X : Type 0} (f : CoapMessage → X)
    (ignores : (m : CoapMessage) (os : List CoapOption) → f (record m { options = os }) ≡ f m) where
  pub set_queries-keeps : (qs : List Query) (m : CoapMessage) → f (set_queries qs m) ≡ f m
  unfolding set_queries set_uri_query
  set_queries-keeps [] m = refl
  set_queries-keeps (q ∷ qs) m =
      set_queries-keeps qs (set_uri_query q.key q.first m) ∙ add_option-keeps f ignores _ _ m

through-Gives :
    (f : List ℕ → Result (List ℕ)) (o : Option Payload)
    → ((b : List ℕ) → Gives Anything (f b))
    → Gives Anything (through f o)
unfolding through
through-Gives f none k = search gives_rules
through-Gives f (some load) k = search (gives_rules, k)

payload_through-Gives :
    (f : List ℕ → Result (List ℕ)) (m : CoapMessage)
    → ((b : List ℕ) → Gives Anything (f b))
    → Gives Anything (payload_through f m)
unfolding payload_through
payload_through-Gives f m k = search (gives_rules, through-Gives, k)

-- A payload that is there stays there.
data IsThere : Option Payload → Type 0 where
  there : (x : Payload) → IsThere (some x)

through-IsThere :
    (f : List ℕ → Result (List ℕ)) (o : Option Payload)
    → o ≢ none
    → ((b : List ℕ) → Gives Anything (f b))
    → Gives IsThere (through f o)
unfolding through
through-IsThere f none h k = absurd (h refl)
through-IsThere f (some load) h k = search (gives_rules, k, IsThere.there)

there-HasPayload :
    (m : CoapMessage) (o : Option Payload) → IsThere o → HasPayload (record m { payload = o })
there-HasPayload m _ (IsThere.there x) = record { payload_there = λ r. cc r }

payload_through-HasPayload :
    (f : List ℕ → Result (List ℕ)) (m : CoapMessage)
    → HasPayload m
    → ((b : List ℕ) → Gives Anything (f b))
    → Gives HasPayload (payload_through f m)
unfolding payload_through
payload_through-HasPayload f m h k =
    bind-Gives IsThere HasPayload _ _ (through-IsThere f m.payload h.payload_there k)
      (λ o t. Gives.given _ (there-HasPayload m o t))

module _ (p : Primitives) (url : UrlParser) (aead : Aead p) (ready : IsReady p aead) where
  pub encrypt-Gives :
      (m : CoapMessage) (address : List ℕ) → Gives Anything (encrypt p url m address aead)
  unfolding encrypt encryption_options
  encrypt-Gives m address =
      search (gives_rules, payload_through-Gives, seal_text-Gives p aead, ready)

  decryption_options-Gives :
      (m : CoapMessage) → HasPayload m → Gives HasPayload (decryption_options p url m aead)
  unfolding decryption_options
  decryption_options-Gives m h = elim (Option-cases (get_option option_coaps_uri m)) [
    | inl e ↦ rw (e, decryption_options) (Gives.given m h)
    | inr (o, e) ↦
        rw (e, decryption_options) (search (gives_rules, open_text-Gives p aead, ready, kept))
  ]
    where
      kept :
          (qs : List Query) (path : List ℕ)
          → HasPayload (remove_options option_coaps_uri (set_queries qs (set_uri_path path m)))
      kept qs path =
          unfold remove_options in
          record {
            payload_there = λ r. h.payload_there (
                sym (set_uri_path-keeps (λ n. n.payload) (λ n os. refl) path m)
                ∙ sym (set_queries-keeps (λ n. n.payload) (λ n os. refl) qs (set_uri_path path m))
                ∙ r);
          }

  pub decrypt-Gives : (m : CoapMessage) → HasPayload m → Gives HasPayload (decrypt p url m aead)
  unfolding decrypt
  decrypt-Gives m h =
      bind-Gives HasPayload HasPayload _ _
        (payload_through-HasPayload _ m h (λ b. open_text-Gives p aead b m.message_id [] ready))
        (λ m' h'. decryption_options-Gives m' h')
