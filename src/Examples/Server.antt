-- ===== src/Examples/Server.antt =====
-- server.go: a server that forwards a request, and one whose proxy is not enabled.
use coalago.Base.{
  ℕ, ◌≡◌, refl, true, false, Option, none, some, List, [], ◌∷◌, arith, if◌then◌else◌, bytes_eq,
  bytes_eq_self, ◌≤◌,
}
use coalago.Base.Text.{codes}
use coalago.Checksum.{deserialize_checked, check_message, verify_checksum}
use coalago.Codec.Deserialize.{
  deserialize, after_header, parse_options, round, finish_message, validate_message,
  has_repeated_critical,
}
use coalago.Constants.{Error, con, ack, code_get, option_proxy_uri}
use coalago.Message.{CoapMessage, Payload, zero_message, add_option, get_option}
use coalago.Options.{Value}
use coalago.Results.{Result}
use coalago.Server.{ProxyNote, NoteCache, Server}
use coalago.Server.Lifecycle.{Sockets, close, close_times, close_times_once}
use coalago.Server.Relay.{Route, note_key, listen_step, tcp_step, forward}
use coalago.Server.Relay.Answered.{Keeps, listen_step-forward}
use coalago.Server.Relay.Closed.{Serves, IsClosed, IsLocal, Serves-IsLocal}
use coalago.Transport.Input.{preparation_for_local_states, checked_message}

-- A cache that keeps the newest note only, for ever.
abbrev one_note : NoteCache
one_note = record {
  Store = Option (List ℕ × ProxyNote);
  find = λ now key store. elim store [
    | none ↦ none
    | some (k, note) ↦ if bytes_eq k key then some note else none
  ];
  keep = λ now key note store. some (key, note);
}

one_note-Keeps : Keeps one_note 60
one_note-Keeps = record {
  found_after = λ now later key note store le lt. rw (bytes_eq_self key) refl;
}

abbrev relay : Server one_note
relay = record {
  proxy_enable = true;
  resources = [];
  private_key = [];
  connection_type = 1;
  proxy_cache = none;
}

abbrev proxied : CoapMessage
proxied =
    add_option option_proxy_uri (Value.str (codes "coap://10.0.0.9:5683"))
      (record zero_message { type = con; code = code_get; message_id = 7; token = 9 ∷ [] })

abbrev back : ProxyNote
back = record { addr = codes "10.0.0.1:40000"; tcp = none }

-- An acknowledgement with the token 9.
abbrev answer_bytes : List ℕ
answer_bytes = 0x61 ∷ 0x45 ∷ 0 ∷ 7 ∷ 9 ∷ []

abbrev host : List ℕ
host = codes "10.0.0.9:5683"

abbrev answer : CoapMessage
answer = record zero_message {
  type = ack;
  code = 0x45;
  message_id = 7;
  token = 9 ∷ [];
  payload = some (Payload.bytes_payload []);
  sender = some host;
}

answer_read : preparation_for_local_states answer_bytes host ≡ Result.ok answer
unfolding preparation_for_local_states checked_message deserialize_checked check_message
    verify_checksum get_option deserialize after_header parse_options round finish_message
    validate_message has_repeated_critical
answer_read = refl

same_token : answer.token ≡ proxied.token
unfolding add_option
same_token = refl

listen_step-forward_example :
    listen_step 5 [] host answer_bytes
      (forward (λ bytes addr. none) 1 proxied (some host) back relay).1
    ≡ (
      Route.relayed back answer_bytes,
      record (forward (λ bytes addr. none) 1 proxied (some host) back relay).1 {
        proxy_cache = some (note_key answer host, back);
      },
    )
listen_step-forward_example =
    listen_step-forward one_note 60 one_note-Keeps (λ bytes addr. none) 1 5 [] proxied answer host
      answer_bytes back relay refl refl (omega arith) (omega arith) (omega arith) (omega arith)
      answer_read same_token

-- The same server without its proxy.
abbrev closed : Server one_note
closed = record relay { proxy_enable = false }

closed-IsClosed : IsClosed (λ bytes addr. none) closed
closed-IsClosed = record { disabled = refl; empty = λ now key. refl }

Serves-IsLocal_example :
    IsLocal
      (listen_step 5 [] host answer_bytes
        (forward {c = one_note} (λ bytes addr. none) 1 proxied (some host) back closed).1).0
    × IsLocal
        (tcp_step 5 [] host answer_bytes
          (forward {c = one_note} (λ bytes addr. none) 1 proxied (some host) back closed).1).0
    × ((forward
          (λ bytes addr. none)
          5
          proxied
          (some host)
          back
          (forward {c = one_note}
            (λ bytes addr. none)
            1
            proxied
            (some host)
            back
            closed).1).0.written
        ≡ none)
Serves-IsLocal_example =
    Serves-IsLocal (λ bytes addr. none) closed
      (forward (λ bytes addr. none) 1 proxied (some host) back closed).1 5 [] host answer_bytes
      proxied (some host) back closed-IsClosed
      (Serves.request 1 proxied (some host) back closed Serves.start)

-- A server with both sockets, of which the connection fails to close.
abbrev sockets : Sockets
sockets = record {
  once = false;
  close_err = none;
  conn = some (some (Error.network 1));
  tcp_ln = some none;
  conn_closes = 0;
  ln_closes = 0;
}

close_times_once_example :
    (close_times 3 sockets ≡ (close sockets).0)
    × ((close (close_times 3 sockets)).1 ≡ (close sockets).1)
    × ((close_times 3 sockets).conn_closes ≤ 1)
    × ((close_times 3 sockets).ln_closes ≤ 1)
close_times_once_example = close_times_once 2 sockets
