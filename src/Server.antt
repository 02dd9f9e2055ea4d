-- ===== src/Server.antt =====
-- server.go: the state of a server that its loops and methods share, and its methods without a loop.
pub mod Relay
pub mod Sending
pub mod Processing
pub mod Lifecycle
use coalago.Base.{
  ℕ, ◌+◌, Bool, true, false, Option, none, some, List, [], ◌∷◌, ◌++◌, ◌==◌, not, bit_and, bit_or,
  bytes_eq, if◌then◌else◌,
}
use coalago.Message.{CoapMessage}
use coalago.Requests.{Resource, Resources, HandlerResult, add_resource, new_coap_resource}

-- proxyNote: where the answers to a request that was passed on go; `tcp` names the TCP transport that
-- it came from, or the server's own.
pub record ProxyNote : Type 0 where
  pub addr : List ℕ
  pub tcp : Option ℕ

-- What the code uses of go-cache: Get and SetDefault of proxyCache, at a time.
pub record NoteCache : Type 1 where
  pub Store : Type 0
  pub find : ℕ → List ℕ → Store → Option ProxyNote
  pub keep : ℕ → List ℕ → ProxyNote → Store → Store

-- Server, without the transport, the sessions and the listeners, which Transport has.
pub record Server (c : NoteCache) : Type 0 where
  pub proxy_enable : Bool
  pub resources : Resources
  pub private_key : List ℕ
  pub connection_type : ℕ
  pub proxy_cache : c.Store

abbrev pub connection_type_udp : ℕ
connection_type_udp = 1

abbrev pub connection_type_tcp : ℕ
connection_type_tcp = 2

-- The keys of backwardStorage: the channels that Get made and Delete has not removed.
abbrev pub Waiting : Type 0
Waiting = List (List ℕ)

abbrev pub contains : List ℕ → Waiting → Bool
contains key [] = false
contains key (k ∷ ks) = let rest = contains key ks in if bytes_eq k key then true else rest

-- The methods Has, Get and Delete of backwardStorage, whose key is the token and the sender.
unfoldable pub has_waiting : CoapMessage → List ℕ → Waiting → Bool
has_waiting m sender bq = contains (m.token ++ sender) bq

unfoldable pub get_waiting : List ℕ → Waiting → Waiting
get_waiting key bq = if contains key bq then bq else key ∷ bq

unfoldable pub delete_waiting : List ℕ → Waiting → Waiting
delete_waiting key [] = []
delete_waiting key (k ∷ ks) =
    let rest = delete_waiting key ks in if bytes_eq k key then rest else k ∷ rest

module _ {c : NoteCache} where
  -- ListenTCP and Listen, IsTCP and IsUDP, on the mask of connection types.
  unfoldable pub listen_tcp : Server c → Server c
  listen_tcp s = record s { connection_type = bit_or s.connection_type connection_type_tcp }

  unfoldable pub listen : Server c → Server c
  listen s = record s { connection_type = bit_or s.connection_type connection_type_udp }

  unfoldable pub is_tcp : Server c → Bool
  is_tcp s = not (bit_and s.connection_type connection_type_tcp == 0)

  unfoldable pub is_udp : Server c → Bool
  is_udp s = not (bit_and s.connection_type connection_type_udp == 0)

  -- GET, POST, PUT and DELETE, with their methods 1, 3, 2 and 4.
  unfoldable pub with_resource :
      ℕ → List ℕ → (CoapMessage → Option HandlerResult) → Server c → Server c
  with_resource method path handler s = record s {
    resources = add_resource (new_coap_resource method path handler) s.resources;
  }

  unfoldable pub get : List ℕ → (CoapMessage → Option HandlerResult) → Server c → Server c
  get path handler s = with_resource 1 path handler s

  unfoldable pub post : List ℕ → (CoapMessage → Option HandlerResult) → Server c → Server c
  post path handler s = with_resource 3 path handler s

  unfoldable pub put_resource : List ℕ → (CoapMessage → Option HandlerResult) → Server c → Server c
  put_resource path handler s = with_resource 2 path handler s

  unfoldable pub delete_resource :
      List ℕ → (CoapMessage → Option HandlerResult) → Server c → Server c
  delete_resource path handler s = with_resource 4 path handler s

  -- Proxy and SetPrivateKey
  unfoldable pub proxy : Bool → Server c → Server c
  proxy flag s = record s { proxy_enable = flag }

  unfoldable pub set_private_key : List ℕ → Server c → Server c
  set_private_key key s = record s { private_key = key }
