-- ===== src/Examples/Secured.antt =====
-- session/, security.go, transport.go: a session of two ends with simple primitives.
use coalago.Base.{
  ℕ, zero, suc, ◌+◌, ◌-◌, ◌*◌, ◌≡◌, ◌≢◌, ◌↔◌, refl, ap, false, Option, none, some, List, [], ◌∷◌,
  ◌++◌, ◌==◌, ==_iff, length, take, map, arith, if◌then◌else◌, length-append, take-append_length,
}
use coalago.Base.Lists.{copied}
use coalago.Base.Text.{codes, join}
use coalago.Constants.{con, code_get, option_uri_path, option_uri_query, option_coaps_uri}
use coalago.Encryption.{Query, UrlParser, encrypt, decrypt}
use coalago.Encryption.RoundTrip.{decrypt-encrypt}
use coalago.Encryption.RoundTrip.Parts.{bytes_of, query_text}
use coalago.Message.{
  is_big_payload, payload_length, payload_bytes, Payload, CoapMessage, zero_message, add_option,
  get_options, get_options_as_string,
}
use coalago.Options.{Value, string_value, is_repeatable_option}
use coalago.Results.{Result}
use coalago.Session.{
  Primitives, Aead, SecuredSession, session_of, new_static_curve, make_nonce, confirm, verify,
  peer_verify, get_signature,
}
use coalago.Session.Agreement.{Lawful, Reads, handshake-agrees, confirm-accepts}
use coalago.Session.Nonce.{make_nonce_iff}
use coalago.Session.Ready.{Anything}
use coalago.Storage.{new_sharded_cache}
use coalago.Storage.Contents.{new_sharded_cache-StoresOnly}
use coalago.Transport.{Endpoint, Chance, Host, Reading}
use coalago.Transport.Blocks.{transport_send}
use coalago.Transport.Sound.{IsReadySession, IsSound, Ends}
use coalago.Transport.Sound.Exchanging.{transport_send-Ends}
use coalago.Uri.{get_uri_path, get_uri_query_array}

abbrev repeated : ℕ → ℕ → List ℕ
repeated b zero = []
repeated b (suc n) = b ∷ repeated b n

abbrev total : List ℕ → ℕ
total [] = 0
total (b ∷ bs) = b + total bs

abbrev head_of : List ℕ → ℕ
head_of [] = 0
head_of (b ∷ bs) = b

-- A curve with products of sums for its secrets, and a cipher that only adds a tag.
abbrev pub plain : Primitives
plain = record {
  Gcm = List ℕ;
  sha256 = λ bs. bs;
  scalar_base_mult = λ key. total key ∷ repeated 0 31;
  scalar_mult = λ key point. (total key * head_of point) ∷ repeated 0 31;
  hkdf = λ secret salt info n. some (repeated 7 n);
  new_gcm = λ key. if length key == 16 then some key else none;
  gcm_seal = λ gcm nonce text associated. text ++ repeated 0 16;
  gcm_open = λ gcm nonce text associated. some (take (length text - 16) text);
}

plain_opened :
    (text : List ℕ)
    → some (take (length (text ++ repeated 0 16) - 16) (text ++ repeated 0 16)) ≡ some text
plain_opened text =
    let size : length (text ++ repeated 0 16) - 16 ≡ length text =
      omega (arith, length-append {0} text (repeated 0 16)) in
    rw (size, take-append_length text (repeated 0 16)) refl

plain-Lawful : Lawful plain
plain-Lawful = record {
  length_base = λ key. refl;
  shared = λ a b. ap (λ n. n ∷ repeated 0 31) (grind arith);
  derived = λ secret. (repeated 7 40, refl, refl);
  cipher = λ key e. (key, rw ((==_iff (length key) 16).1 e) refl);
  opened = λ gcm nonce text associated twelve. plain_opened text;
  tagged = λ gcm nonce text associated. length-append text (repeated 0 16);
}

abbrev client : SecuredSession plain
client = record (session_of plain (new_static_curve plain (repeated 1 32))) {
  peer_public_key = (new_static_curve plain (repeated 2 32)).public_key;
}

abbrev server : SecuredSession plain
server = record (session_of plain (new_static_curve plain (repeated 2 32))) {
  peer_public_key = (new_static_curve plain (repeated 1 32)).public_key;
}

handshake-agrees_example :
    (get_signature plain client ≡ get_signature plain server)
    × ((confirm plain (verify plain) client).1 ≡ none)
    × ((confirm plain (peer_verify plain) server).1 ≡ none)
    × Reads plain
        (confirm plain (verify plain) client).0.aead
        (confirm plain (peer_verify plain) server).0.aead
    × Reads plain
        (confirm plain (peer_verify plain) server).0.aead
        (confirm plain (verify plain) client).0.aead
handshake-agrees_example =
    handshake-agrees plain plain-Lawful (repeated 1 32) (repeated 2 32) client server refl refl refl
      refl

-- Any 32 bytes do.
abbrev unknown_peer : SecuredSession plain
unknown_peer = record client { peer_public_key = repeated 9 32 }

confirm-accepts_example :
    ((confirm plain (verify plain) unknown_peer).1 ≡ none)
    × ((confirm plain (verify plain) unknown_peer).0.aead.encrypter ≢ none)
    × ((confirm plain (verify plain) unknown_peer).0.aead.decrypter ≢ none)
    × ((confirm plain (peer_verify plain) unknown_peer).1 ≡ none)
    × ((confirm plain (peer_verify plain) unknown_peer).0.aead.encrypter ≢ none)
    × ((confirm plain (peer_verify plain) unknown_peer).0.aead.decrypter ≢ none)
confirm-accepts_example = confirm-accepts plain plain-Lawful unknown_peer refl

make_nonce_iff_example :
    (make_nonce (1 ∷ 2 ∷ 3 ∷ 4 ∷ []) 4242 ≡ make_nonce (1 ∷ 2 ∷ 3 ∷ 4 ∷ []) 258)
    ↔ ((◌≡◌ {A = List ℕ} (1 ∷ 2 ∷ 3 ∷ 4 ∷ []) (1 ∷ 2 ∷ 3 ∷ 4 ∷ [])) × (◌≡◌ {A = ℕ} 4242 258))
make_nonce_iff_example =
    make_nonce_iff (1 ∷ 2 ∷ 3 ∷ 4 ∷ []) (1 ∷ 2 ∷ 3 ∷ 4 ∷ []) 4242 258 refl refl (omega arith)
      (omega arith)

nonce_bytes :
    make_nonce (1 ∷ 2 ∷ 3 ∷ 4 ∷ []) 0x1234
    ≡ 1 ∷ 2 ∷ 3 ∷ 4 ∷ 0x34 ∷ 0x12 ∷ 0 ∷ 0 ∷ 0 ∷ 0 ∷ 0 ∷ 0 ∷ []
unfolding make_nonce copied
nonce_bytes = refl

-- A request for coaps://host/sensors?unit=c
abbrev secret_request : CoapMessage
secret_request = add_option option_uri_query (Value.str (codes "unit=c")) (
    add_option option_uri_path (Value.str (codes "sensors")) (record zero_message {
      type = con;
      code = code_get;
      message_id = 7;
      token = 1 ∷ 2 ∷ [];
      payload = some (Payload.bytes_payload (5 ∷ 6 ∷ []));
    }))

abbrev unit_query : Query
unit_query = record { key = codes "unit"; first = codes "c"; others = [] }

abbrev pub fixed_url : UrlParser
fixed_url = record {
  parse = λ uri. some (record { path = codes "/sensors"; raw_query = codes "unit=c" });
  parse_query = λ query. some (unit_query ∷ []);
}

abbrev client_aead : Aead plain
client_aead = (confirm plain (verify plain) client).0.aead

abbrev server_aead : Aead plain
server_aead = (confirm plain (peer_verify plain) server).0.aead

request_path : get_options_as_string option_uri_path secret_request ≡ codes "sensors" ∷ []
unfolding get_options_as_string get_options add_option string_value is_repeatable_option
request_path = refl

request_uri_path : codes "/sensors" ≡ get_uri_path secret_request
unfolding get_uri_path join
request_uri_path = rw request_path refl

decrypt-encrypt_example :
    (sealed opened : CoapMessage) × (encrypt plain fixed_url secret_request
        (codes "host")
        client_aead
      ≡ Result.ok sealed)
    × (decrypt plain fixed_url sealed server_aead ≡ Result.ok opened)
    × (bytes_of opened.payload ≡ bytes_of secret_request.payload)
    × (get_options_as_string option_uri_path opened
        ≡ get_options_as_string option_uri_path secret_request)
    × (get_uri_query_array opened ≡ map query_text (unit_query ∷ []))
    × (opened.token ≡ secret_request.token)
    × ((id : ℕ)
        → (option_uri_path == id) ≡ false
        → (option_uri_query == id) ≡ false
        → (option_coaps_uri == id) ≡ false
        → get_options id opened ≡ get_options id secret_request)
decrypt-encrypt_example =
    decrypt-encrypt plain fixed_url client_aead server_aead handshake-agrees_example.3
      secret_request (codes "host") (record { path = codes "/sensors"; raw_query = codes "unit=c" })
      (unit_query ∷ []) refl request_uri_path refl (rw request_path (omega arith))

-- A host with no sessions yet, whose connection gives one broken datagram and then a deadline.
abbrev pub new_host : Host plain
new_host = record {
  sessions = new_sharded_cache 100;
  proxy_ids = new_sharded_cache 100;
  now = 0;
  counter = 0;
  draws = 0;
  incoming = (1, Reading.arrived (1 ∷ 2 ∷ [])) ∷ (2, Reading.deadline) ∷ [];
  handed = [];
  written = [];
}

pub new_host-IsSound : IsSound new_host
new_host-IsSound = record { ready = new_sharded_cache-StoresOnly IsReadySession 100 }

abbrev pub endpoint : Endpoint
endpoint = record {
  local_addr = codes "10.0.0.1:5683";
  remote_addr = codes "10.0.0.2:5683";
  private_key = [];
  write = λ bytes. none;
  write_to = λ bytes addr. none;
}

abbrev pub chance : Chance
chance = record { word = λ n. n; key = λ n. some (repeated (n + 1) 32); token = λ n. repeated n 6 }

-- No message comes to a channel.
abbrev no_channel : CoapMessage → List ℕ → List (ℕ × Option CoapMessage)
no_channel m addr = []

request_small : is_big_payload secret_request ≡ false
request_small = unfold is_big_payload payload_length payload_bytes add_option in refl

transport_send-Ends_example :
    Ends Anything
      (transport_send plain fixed_url chance endpoint no_channel secret_request new_host)
transport_send-Ends_example =
    transport_send-Ends plain fixed_url chance endpoint no_channel secret_request new_host
      (λ key. refl) (λ n a. tt) request_small new_host-IsSound
