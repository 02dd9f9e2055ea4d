-- ===== src/Client/Requested.antt =====
-- client.go: the message that a client makes of a URI.
use coalago.Base.{ℕ, ◌≡◌, refl, sym, ap, ◌∙◌, false, some, List, [], ◌++◌, ◌==◌, map}
use coalago.Arq.{message_id_of, raise_counter}
use coalago.Base.Tests.{bytes_eq}
use coalago.Base.Text.{codes}
use coalago.Client.{
  Located, Locator, Target, parse_uri, with_scheme_text, addressed, construct_message,
}
use coalago.Constants.{
  con, coap_scheme, coaps_scheme, option_uri_scheme, option_uri_path, option_uri_query,
}
use coalago.Encryption.{Query, UrlParser, set_queries}
use coalago.Encryption.Ready.{set_queries-keeps}
use coalago.Encryption.RoundTrip.Parts.{
  set_queries_other, set_uri_path_other, set_queries-array, query_text,
}
use coalago.Message.{
  CoapMessage, get_option, get_options, get_options_as_string, new_message, new_message_id,
  add_option,
}
use coalago.Message.OptionLists.{get_option-get_options, first_of_all}
use coalago.Options.{CoapOption, string_value, int_value}
use coalago.Results.{Result}
use coalago.Session.{Primitives}
use coalago.Transport.{Chance, Host, ◌>>=◌, give, return, fresh_message}
use coalago.Uri.{get_scheme, set_scheme_coap, set_scheme_coaps, set_uri_path, get_uri_query_array}
use coalago.Uri.Path.{path_parts, set_uri_path-parts, set_uri_path-keeps}

-- The scheme that a text names.
pub data Names : List ℕ → ℕ → Type 0 where
  coap : Names (codes "coap") coap_scheme
  coap_tcp : Names (codes "coap+tcp") coap_scheme
  coaps : Names (codes "coaps") coaps_scheme
  coaps_tcp : Names (codes "coaps+tcp") coaps_scheme

-- What the message for `t` is asked to say, in the scheme with the number `scheme`.
pub record Says (t : Target) (scheme code : ℕ) (m : CoapMessage) : Type 0 where
  pub type_ok : m.type ≡ con
  pub code_ok : m.code ≡ code
  pub scheme_ok : get_scheme m ≡ scheme
  pub path_ok : get_options_as_string option_uri_path m ≡ path_parts t.path
  pub queries_ok : get_uri_query_array m ≡ map query_text t.queries
  pub recipient_ok : m.recipient ≡ some t.addr

unrecipient :
    (id : ℕ) (a : List ℕ) (n : CoapMessage)
    → get_options id (record n { recipient = some a }) ≡ get_options id n
unfolding get_options
unrecipient id a n = refl

-- Options other than the path and the queries.
addressed_other :
    (id : ℕ) (t : Target) (m : CoapMessage)
    → (option_uri_path == id) ≡ false
    → (option_uri_query == id) ≡ false
    → get_options id (addressed t m) ≡ get_options id m
unfolding addressed
addressed_other id t m a b =
    unrecipient id t.addr _ ∙ set_queries_other id t.queries _ b ∙ set_uri_path_other id t.path m a

get_scheme-options :
    (m n : CoapMessage)
    → get_options option_uri_scheme m ≡ get_options option_uri_scheme n
    → get_scheme m ≡ get_scheme n
unfolding get_scheme
get_scheme-options m n e =
    let same : get_option option_uri_scheme m ≡ get_option option_uri_scheme n =
      get_option-get_options option_uri_scheme m
      ∙ ap first_of_all e
      ∙ sym (get_option-get_options option_uri_scheme n) in
    rw (same, get_scheme) refl

as_string-options :
    (id : ℕ) (m : CoapMessage) (os : List CoapOption)
    → get_options id m ≡ os
    → get_options_as_string id m ≡ map (λ o. string_value o.value) os
unfolding get_options_as_string
as_string-options id m os e = rw e refl

addressed-path :
    (t : Target) (m : CoapMessage)
    → get_options option_uri_path m ≡ []
    → get_options_as_string option_uri_path (addressed t m) ≡ path_parts t.path
unfolding addressed
addressed-path t m e =
    as_string-options option_uri_path _ _
      (unrecipient option_uri_path t.addr _ ∙ set_queries_other option_uri_path t.queries _ refl)
    ∙ sym (as_string-options option_uri_path (set_uri_path t.path m) _ refl)
    ∙ set_uri_path-parts t.path m
    ∙ ap (λ x. x ++ path_parts t.path) (as_string-options option_uri_path m [] e)

array-options :
    (m : CoapMessage) (os : List CoapOption)
    → get_options option_uri_query m ≡ os
    → get_uri_query_array m ≡ map (λ o. string_value o.value) os
unfolding get_uri_query_array
array-options m os e = rw e refl

addressed-queries :
    (t : Target) (m : CoapMessage)
    → get_options option_uri_query m ≡ []
    → get_uri_query_array (addressed t m) ≡ map query_text t.queries
unfolding addressed
addressed-queries t m e =
    array-options _ _ (unrecipient option_uri_query t.addr _)
    ∙ sym (array-options (set_queries t.queries (set_uri_path t.path m)) _ refl)
    ∙ set_queries-array t.queries (set_uri_path t.path m)
    ∙ ap (λ x. x ++ map query_text t.queries)
        (array-options _ [] (set_uri_path_other option_uri_query t.path m refl ∙ e))

addressed-keeps :
    {X : Type 0} (f : CoapMessage → X)
    → ((n : CoapMessage) (os : List CoapOption) → f (record n { options = os }) ≡ f n)
    → ((n : CoapMessage) (a : List ℕ) → f (record n { recipient = some a }) ≡ f n)
    → (t : Target) (m : CoapMessage) → f (addressed t m) ≡ f m
unfolding addressed
addressed-keeps f ignores passes t m =
    passes _ t.addr
    ∙ set_queries-keeps f ignores t.queries _
    ∙ set_uri_path-keeps f ignores t.path m

-- A new message with its scheme.
record IsNamed (code scheme : ℕ) (m : CoapMessage) : Type 0 where
  type_ok : m.type ≡ con
  code_ok : m.code ≡ code
  scheme_ok : get_scheme m ≡ scheme
  no_path : get_options option_uri_path m ≡ []
  no_query : get_options option_uri_query m ≡ []

named :
    (text : List ℕ) (scheme id code : ℕ) (token : List ℕ)
    → Names text scheme
    → (m : CoapMessage) × (with_scheme_text text (new_message id token con code) ≡ Result.ok m)
      × IsNamed code scheme m
unfolding with_scheme_text set_scheme_coap set_scheme_coaps add_option new_message new_message_id
    get_scheme get_option get_options bytes_eq int_value
named text scheme id code token Names.coap = (
  _,
  refl,
  record { type_ok = refl; code_ok = refl; scheme_ok = refl; no_path = refl; no_query = refl },
)
named text scheme id code token Names.coap_tcp = (
  _,
  refl,
  record { type_ok = refl; code_ok = refl; scheme_ok = refl; no_path = refl; no_query = refl },
)
named text scheme id code token Names.coaps = (
  _,
  refl,
  record { type_ok = refl; code_ok = refl; scheme_ok = refl; no_path = refl; no_query = refl },
)
named text scheme id code token Names.coaps_tcp = (
  _,
  refl,
  record { type_ok = refl; code_ok = refl; scheme_ok = refl; no_path = refl; no_query = refl },
)

-- A request that a client constructs from a URI: where url.Parse and url.ParseQuery read the URI and
-- its scheme is one of coap, coap+tcp, coaps and coaps+tcp, constructMessage gives a confirmable
-- message with the code, the scheme of that name, the nonempty parts of the path as its path options
-- in their order, for each key of the query one option with the first of its
-- values, and the resolved address.
pub construct_message-Says :
    (p : Primitives) (url : UrlParser) (chance : Chance) (net : Locator) (code scheme : ℕ)
    (uri : List ℕ) (u : Located) (queries : List Query) (h : Host p)
    → net.parse uri ≡ some u
    → net.parse_query u.raw_query ≡ some queries
    → Names u.scheme scheme
    → (m : CoapMessage) × (h' : Host p) × (construct_message p url chance net code uri h
        ≡ (Result.ok m, h'))
      × Says
          (record {
            path = u.path;
            scheme = u.scheme;
            queries = queries;
            addr = net.resolve u.host;
          })
          scheme
          code
          m
unfolding construct_message parse_uri give return fresh_message ◌>>=◌
construct_message-Says p url chance net code scheme uri u queries h parses reads names =
    let t : Target = record {
      path = u.path;
      scheme = u.scheme;
      queries = queries;
      addr = net.resolve u.host;
    } in
    let parsed : parse_uri net uri ≡ Result.ok t = rw (parses, parse_uri, reads) refl in
    let (m, naming, n) =
      named u.scheme scheme (message_id_of (raise_counter h.counter)) code (chance.token h.draws)
        names in
    (
      addressed t m,
      (fresh_message chance con code h).1,
      rw (parsed, naming) refl,
      record {
        type_ok = addressed-keeps (λ x. x.type) (λ x os. refl) (λ x a. refl) t m ∙ n.type_ok;
        code_ok = addressed-keeps (λ x. x.code) (λ x os. refl) (λ x a. refl) t m ∙ n.code_ok;
        scheme_ok =
            get_scheme-options (addressed t m) m (addressed_other option_uri_scheme t m refl refl)
            ∙ n.scheme_ok;
        path_ok = addressed-path t m n.no_path;
        queries_ok = addressed-queries t m n.no_query;
        recipient_ok = unfold addressed in refl;
      },
    )
