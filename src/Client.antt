-- ===== src/Client.antt =====
-- client.go: the requests of a client, each on a connection of its own.
pub mod Requested
use coalago.Base.{ℕ, Option, none, some, List, [], ◌∷◌, ◌==◌, ◌||◌, bytes_eq, if◌then◌else◌}
use coalago.Base.Text.{codes}
use coalago.Constants.{Error, con, non, ack, code_get, code_post, code_delete}
use coalago.Encryption.{Query, UrlParser, set_queries}
use coalago.Message.{Payload, CoapMessage, payload_bytes, add_options}
use coalago.Options.{CoapOption}
use coalago.Results.{Result}
use coalago.Session.{Primitives}
use coalago.Transport.{Endpoint, Chance, Host, M, Reading, ◌>>=◌, give, return, fresh_message}
use coalago.Transport.Blocks.{transport_send}
use coalago.Uri.{set_scheme_coap, set_scheme_coaps, set_uri_path}

-- Response
pub record Response : Type 0 where
  pub body : List ℕ
  pub code : ℕ
  pub peer_public_key : List ℕ

-- What the client uses of net/url and net: url.Parse, url.ParseQuery, whose map is
-- listed in the order of one range over it, and the text of the address that
-- net.ResolveUDPAddr gives, also where it fails.
pub record Located : Type 0 where
  pub scheme : List ℕ
  pub host : List ℕ
  pub path : List ℕ
  pub raw_query : List ℕ

pub record Locator : Type 0 where
  pub parse : List ℕ → Option Located
  pub parse_query : List ℕ → Option (List Query)
  pub resolve : List ℕ → List ℕ

-- The results of parseURI.
pub record Target : Type 0 where
  pub path : List ℕ
  pub scheme : List ℕ
  pub queries : List Query
  pub addr : List ℕ

-- parseURI
unfoldable pub parse_uri : Locator → List ℕ → Result Target
parse_uri net uri = elim (net.parse uri) [
  | none ↦ Result.err Error.url_failure
  | some u ↦ elim (net.parse_query u.raw_query) [
    | none ↦ Result.err Error.url_failure
    | some queries ↦
        Result.ok (record {
          path = u.path;
          scheme = u.scheme;
          queries = queries;
          addr = net.resolve u.host;
        })
  ]
]

-- The scheme of a URI: its text is for both transports.
unfoldable pub with_scheme_text : List ℕ → CoapMessage → Result CoapMessage
with_scheme_text scheme m =
    if bytes_eq scheme (codes "coap") || bytes_eq scheme (codes "coap+tcp")
    then Result.ok (set_scheme_coap m)
    else if bytes_eq scheme (codes "coaps") || bytes_eq scheme (codes "coaps+tcp")
    then Result.ok (set_scheme_coaps m)
    else Result.err Error.undefined_scheme

unfoldable pub addressed : Target → CoapMessage → CoapMessage
addressed t m = record (set_queries t.queries (set_uri_path t.path m)) { recipient = some t.addr }

-- What a nil response or payload does to the code that reads it.
unfoldable pub response_of : Option CoapMessage → Result Response
response_of none = Result.panic
response_of (some r) = elim r.payload [
  | none ↦ Result.panic
  | some load ↦
      Result.ok
        (record { body = payload_bytes load; code = r.code; peer_public_key = r.peer_public_key })
]

-- A connection of the pool, with what it will give.
pub record Dialed : Type 0 where
  pub endpoint : Endpoint
  pub readings : List (ℕ × Reading)

module _ (p : Primitives) (url : UrlParser) (chance : Chance) (net : Locator) where
  -- constructMessage
  unfoldable pub construct_message : ℕ → List ℕ → M p CoapMessage
  construct_message code uri = give (parse_uri net uri) >>= λ t.
      fresh_message chance con code >>= λ m.
      give (with_scheme_text t.scheme m) >>= λ m'. return (addressed t m')

  -- A client with its private key, `dial` of its pool, and the channels of its transports.
  module _ (private_key : List ℕ) (dial : List ℕ → Result Dialed)
      (channel : CoapMessage → List ℕ → List (ℕ × Option CoapMessage)) where
    -- Send of a new transport on the connection.
    unfoldable pub send_over : CoapMessage → Dialed → M p (Option CoapMessage)
    send_over m c h =
        transport_send p url chance (record c.endpoint { private_key = private_key }) channel m
          (record h { incoming = c.readings })

    -- sendCON of the client; the recipient of a message that constructMessage made is there.
    unfoldable pub client_send_con : CoapMessage → M p (Option CoapMessage)
    client_send_con m = elim m.recipient [
      | none ↦ give Result.panic
      | some addr ↦ give (dial addr) >>= send_over m
    ]

    -- sendCONMessage
    unfoldable pub send_con_message : CoapMessage → M p Response
    send_con_message m = client_send_con m >>= λ r. give (response_of r)

    -- GET, POST and DELETE; DELETE does not look at its data.
    unfoldable pub client_get : List ℕ → List CoapOption → M p Response
    client_get uri opts =
        construct_message code_get uri >>= λ m. send_con_message (add_options opts m)

    unfoldable pub client_post : List ℕ → List ℕ → List CoapOption → M p Response
    client_post bytes uri opts = construct_message code_post uri >>= λ m.
        send_con_message
          (record (add_options opts m) { payload = some (Payload.bytes_payload bytes) })

    unfoldable pub client_delete : List ℕ → List ℕ → List CoapOption → M p Response
    client_delete bytes uri opts =
        construct_message code_delete uri >>= λ m. send_con_message (add_options opts m)

    -- Send of the client
    unfoldable pub client_send : CoapMessage → List ℕ → List CoapOption → M p (Option Response)
    client_send m addr opts =
        let m' = add_options opts m in
        give (dial addr) >>= send_over m' >>= λ r.
        if m'.type == non || m'.type == ack
        then return none
        else (give (response_of r) >>= λ response. return (some response))
