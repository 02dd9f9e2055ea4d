-- ===== src/Server/Relay.antt =====
-- server.go: what listenLoop and HandleTCPConn do with what they read, and the forwarding of requests.
pub mod Closed
pub mod Answered
use coalago.Base.{
  ℕ, ◌≡◌, ◌≢◌, refl, Bool, true, false, Option, none, some, List, [], ◌∷◌, ◌++◌, ◌==◌, ◌||◌, ◌&&◌,
  not, ltb, length, if◌then◌else◌,
}
use coalago.Base.Int.{pos, int_eq}
use coalago.Checksum.{deserialize_checked}
use coalago.Codec.{serialize}
use coalago.Codec.Deserialize.{Returned}
use coalago.Constants.{
  Error, mtu, peer_hello, option_handshake_type, option_proxy_scheme, option_proxy_uri,
}
use coalago.Message.{CoapMessage, get_option, remove_options}
use coalago.Message.Accessors.{get_option_proxy_uri_as_string}
use coalago.Options.{int_value}
use coalago.Results.{Result}
use coalago.Server.{ProxyNote, NoteCache, Server, Waiting, has_waiting}
use coalago.Transport.Input.{preparation_for_local_states}

-- What becomes of what was read: it is dropped; its bytes go to the address of a note; its message is
-- forwarded, is handed to who waits for it in backwardStorage, or is processed by its local state.
pub data Route : Type 0 where
  dropped : Route
  relayed : ProxyNote → List ℕ → Route
  forwarded : CoapMessage → Route
  handed : CoapMessage → Route
  processed : CoapMessage → Route

-- What forwarding does: nothing, or a write to an address with the error that it has.
pub record Forwarding : Type 0 where
  pub written : Option (List ℕ × List ℕ)
  pub failure : Option Error

-- Whether a message is the peer's hello.
unfoldable pub is_peer_hello : CoapMessage → Bool
is_peer_hello m = elim (get_option option_handshake_type m) [
  | none ↦ false
  | some o ↦ int_eq (int_value o.value) (pos peer_hello)
]

-- The end of both loops, for a message that is not forwarded.
unfoldable pub handled_or_processed : Waiting → CoapMessage → List ℕ → Route
handled_or_processed bq m sender =
    if is_peer_hello m && has_waiting m sender bq then Route.handed m else Route.processed m

-- The key of proxyCache for a message and an address.
abbrev pub note_key : CoapMessage → List ℕ → List ℕ
note_key m addr = m.token ++ addr

-- The message that is passed on.
unfoldable pub without_proxy : CoapMessage → CoapMessage
without_proxy m = remove_options option_proxy_uri (remove_options option_proxy_scheme m)

module _ {c : NoteCache} where
  -- A note that is found is kept again, and the bytes go to its address.
  unfoldable pub relay_or : ℕ → CoapMessage → List ℕ → List ℕ → Server c → Route → Route × Server c
  relay_or now m sender bytes s other = elim (c.find now (note_key m sender) s.proxy_cache) [
    | none ↦ (other, s)
    | some note ↦ (
      Route.relayed note bytes,
      record s { proxy_cache = c.keep now (note_key m sender) note s.proxy_cache },
    )
  ]

  -- The rest of listenLoop, for the message of a datagram.
  unfoldable pub route_message :
      ℕ → Waiting → List ℕ → List ℕ → Server c → Result CoapMessage → Route × Server c
  route_message now bq sender bytes s (Result.ok m) = relay_or now m sender bytes s (
      if not (length (get_option_proxy_uri_as_string m) == 0)
      then Route.forwarded m
      else handled_or_processed bq m sender)
  route_message now bq sender bytes s other = (Route.dropped, s)

  -- listenLoop, for one datagram
  unfoldable pub listen_step : ℕ → Waiting → List ℕ → List ℕ → Server c → Route × Server c
  listen_step now bq sender bytes s =
      if length bytes == 0 || ltb mtu (length bytes)
      then (Route.dropped, s)
      else route_message now bq sender bytes s (preparation_for_local_states bytes sender)

  -- HandleTCPConn, for one frame: here a message with a proxy's URI is forwarded in any case.
  unfoldable pub tcp_step : ℕ → Waiting → List ℕ → List ℕ → Server c → Route × Server c
  tcp_step now bq sender bytes s =
      let r = deserialize_checked bytes in
      elim r.error [
        | some e ↦ (Route.dropped, s)
        | none ↦ elim r.message [
          | none ↦ (Route.dropped, s)
          | some n ↦
              let m = record n { sender = some sender } in
              if not (length (get_option_proxy_uri_as_string m) == 0)
              then (Route.forwarded m, s)
              else relay_or now m sender bytes s (handled_or_processed bq m sender)
        ]
      ]

  module _ (write_to : List ℕ → List ℕ → Option Error) where
    -- sendMultyProxy
    unfoldable pub send_multy_proxy : CoapMessage → List ℕ → Server c → Forwarding
    send_multy_proxy m addr s =
        if not s.proxy_enable
        then record { written = none; failure = some Error.proxy_disabled }
        else (let bytes = (serialize m).0 in
            record { written = some (addr, bytes); failure = write_to bytes addr })

    -- The goroutine that both loops start for a message to forward; `host` is the Host of its URI, if
    -- url.Parse takes it. What it does, and the server after it.
    unfoldable pub forward :
        ℕ → CoapMessage → Option (List ℕ) → ProxyNote → Server c → Forwarding × Server c
    forward now m none note s = (record { written = none; failure = some Error.url_failure }, s)
    forward now m (some host) note s =
        let m' = without_proxy m in
        let f = send_multy_proxy m' host s in
        elim f.failure [
          | some e ↦ (f, s)
          | none ↦ (f, record s { proxy_cache = c.keep now (note_key m' host) note s.proxy_cache })
        ]
