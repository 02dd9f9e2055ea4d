-- ===== src/Transport/Input.antt =====
-- security.go, transport.go and localstate.go: how a message that comes in passes the security layer.
use coalago.Base.{
  ℕ, ◌+◌, Bool, true, false, Option, none, some, List, [], ◌∷◌, ◌/◌, ◌==◌, ◌&&◌, not, ltb, length,
  if◌then◌else◌, bytes_eq,
}
use coalago.Base.Int.{ℤ, pos, int_eq}
use coalago.Checksum.{deserialize_checked, verify_checksum}
use coalago.Codec.Deserialize.{Returned}
use coalago.Constants.{
  Error, ack, coaps_scheme, code_content, code_unauthorized, client_hello, client_signature,
  peer_hello, option_handshake_type, option_session_not_found, option_session_expired,
  option_proxy_security_id, mtu,
}
use coalago.Encryption.{UrlParser, decrypt}
use coalago.Message.{Payload, CoapMessage, payload_bytes, get_option, add_option, clone_options}
use coalago.Options.{Value, int_value}
use coalago.Results.{Result}
use coalago.Session.{Primitives, SecuredSession, new_secured_session, confirm, peer_verify}
use coalago.Transport.{
  Reading, Endpoint, Chance, Host, M, ◌>>=◌, give, return, fail, ignoring_error, fresh_message_id,
}
use coalago.Transport.Output.{
  proxy_with_id, get_session_for_address, set_session_for_address, delete_session_for_address,
  send_to,
}
use coalago.Uri.{get_scheme}

-- newServerHelloMessage of a new message
unfoldable pub server_hello : CoapMessage → List ℕ → CoapMessage → CoapMessage
server_hello orig public_key m =
    let m' = add_option option_handshake_type (Value.int (pos peer_hello)) m in
    let m'' =
      clone_options orig (option_proxy_security_id ∷ [])
        (record m' { payload = some (Payload.bytes_payload public_key); token = orig.token }) in
    record m'' { proxy_addr = orig.proxy_addr }

-- preparationReceivingBufferForStorageLocalStates; it ends where the security layer starts.
unfoldable pub checked_message : Returned → List ℕ → Result CoapMessage
checked_message r sender = elim r.error [
  | some e ↦ Result.err e
  | none ↦ elim r.message [
    | none ↦ Result.err Error.nil_message
    | some m ↦ elim (verify_checksum (record m { sender = some sender })) [
      | some e ↦ Result.err Error.checksum_mismatch
      | none ↦ Result.ok (record m { sender = some sender })
    ]
  ]
]

unfoldable pub preparation_for_local_states : List ℕ → List ℕ → Result CoapMessage
preparation_for_local_states bytes sender = checked_message (deserialize_checked bytes) sender

-- Whether receiveMessage goes on reading after an error.
abbrev pub is_mismatch : Error → Bool
is_mismatch Error.checksum_mismatch = true
is_mismatch e = false

abbrev pub is_there : {A : Type 0} → Option A → Bool
is_there none = false
is_there (some a) = true

-- receiveHandshake makes any error ErrorHandshake.
module _ {p : Primitives} where
  abbrev pub handshake_failure : {A : Type 0} → Result A × Host p → Result A × Host p
  handshake_failure (Result.err e, h) = (Result.err Error.handshake_error, h)
  handshake_failure (other, h) = (other, h)

  unfoldable pub or_handshake_error : {A : Type 0} → M p A → M p A
  or_handshake_error m h = handshake_failure (m h)

module _ (p : Primitives) (url : UrlParser) (chance : Chance) (tr : Endpoint)
    (send_blocks : CoapMessage → List ℕ → M p (Unit {0})) where
  -- The answers of handleCoapsScheme, with the option `code`.
  unfoldable pub refuse : ℕ → CoapMessage → List ℕ → M p (Unit {0})
  refuse code m sender = fresh_message_id chance ack code_unauthorized m.message_id >>= λ r.
      ignoring_error (
        send_to p url chance tr send_blocks
          (record (add_option code (Value.int (pos 1)) r) { token = m.token }) sender)

  -- What becomes of the decrypted message.
  unfoldable pub opened_message :
      CoapMessage → List ℕ → List ℕ → SecuredSession p → Result CoapMessage → M p CoapMessage
  opened_message m sender proxy_addr s (Result.ok m') =
      return (record m' { peer_public_key = s.peer_public_key })
  opened_message m sender proxy_addr s (Result.err e) =
      delete_session_for_address p url chance tr tr.local_addr sender proxy_addr >>= λ _.
      refuse option_session_expired m sender >>= λ _. fail Error.client_session_expired
  opened_message m sender proxy_addr s other = give other

  -- The first part of handleCoapsScheme, for a message with the scheme coaps.
  unfoldable pub with_session :
      CoapMessage → List ℕ → List ℕ → Option (SecuredSession p) → M p CoapMessage
  with_session m sender proxy_addr none =
      refuse option_session_not_found m sender >>= λ _. fail Error.client_session_not_found
  with_session m sender proxy_addr (some s) =
      opened_message m sender proxy_addr s (decrypt p url m s.aead)

  unfoldable pub opened : CoapMessage → List ℕ → List ℕ → M p CoapMessage
  opened m sender proxy_addr =
      if get_scheme m == coaps_scheme
      then (get_session_for_address p url chance tr tr.local_addr sender proxy_addr
          >>= with_session m sender proxy_addr)
      else return m

  -- The rest of it: the errors that the peer reports.
  unfoldable pub reported : List ℕ → List ℕ → CoapMessage → M p CoapMessage
  reported sender proxy_addr m =
      if not (m.code == code_unauthorized)
      then return m
      else if is_there (get_option option_session_not_found m)
      then (delete_session_for_address p url chance tr tr.local_addr sender proxy_addr >>= λ _.
          fail Error.session_not_found_error)
      else if is_there (get_option option_session_expired m)
      then (delete_session_for_address p url chance tr tr.local_addr sender proxy_addr >>= λ _.
          fail Error.session_expired_error)
      else return m

  -- handleCoapsScheme; the message that it changes, and the text of its sender, which each caller has
  -- set.
  unfoldable pub handle_coaps_scheme : CoapMessage → List ℕ → List ℕ → M p CoapMessage
  handle_coaps_scheme m sender proxy_addr =
      opened m sender proxy_addr >>= reported sender proxy_addr

  -- incomingHandshake; any error of it is ErrorHandshake in receiveHandshake.
  unfoldable pub incoming_handshake : List ℕ → CoapMessage → List ℕ → M p (Unit {0})
  incoming_handshake public_key m sender =
      fresh_message_id chance ack code_content m.message_id >>= λ r.
      send_to p url chance tr send_blocks (server_hello m public_key r) sender

  -- The session of receiveHandshake: the one that is there, or a new one. A draw is counted also where
  -- the private key is used.
  unfoldable pub peer_session_of : Option (SecuredSession p) → M p (SecuredSession p)
  peer_session_of (some s) h = (Result.ok s, h)
  peer_session_of none h =
      (new_secured_session p tr.private_key (chance.key h.draws), record h { draws = h.draws + 1 })

  -- The session after PeerVerify, which is stored with the time in seconds.
  unfoldable pub stamped : SecuredSession p → M p (SecuredSession p)
  stamped s h = (Result.ok (record s { updated_at = h.now / 1_000_000_000 }), h)

  unfoldable pub stored_session : List ℕ → List ℕ → SecuredSession p × Option Error → M p Bool
  stored_session sender proxy_addr (s, some e) = fail Error.handshake_error
  stored_session sender proxy_addr (s, none) = stamped s >>= λ s'.
      set_session_for_address p url chance tr s' tr.local_addr sender proxy_addr >>= λ _.
      return false

  -- A client's hello with the key `key`.
  unfoldable pub answered_hello :
      CoapMessage → List ℕ → List ℕ → List ℕ → SecuredSession p → M p Bool
  answered_hello m key sender proxy_addr s =
      let s' = record s { peer_public_key = key } in
      or_handshake_error (incoming_handshake s'.curve.public_key m sender) >>= λ _.
      stored_session sender proxy_addr (confirm p (peer_verify p) s')

  unfoldable pub handle_handshake : CoapMessage → List ℕ → List ℕ → ℤ → M p Bool
  handle_handshake m sender proxy_addr value =
      if not (int_eq value (pos client_signature)) && not (int_eq value (pos client_hello))
      then return false
      else (get_session_for_address p url chance tr tr.local_addr sender proxy_addr >>= λ found.
          or_handshake_error (peer_session_of found) >>= λ s. elim m.payload [
            | none ↦ fail Error.handshake_error
            | some load ↦
                if int_eq value (pos client_hello)
                then answered_hello m (payload_bytes load) sender proxy_addr s
                else fail Error.handshake_error
          ])

  -- receiveHandshake: whether to go on.
  unfoldable pub receive_handshake : CoapMessage → List ℕ → List ℕ → M p Bool
  receive_handshake m sender proxy_addr = elim m.is_proxies [
    | true ↦ return true
    | false ↦ elim (get_option option_handshake_type m) [
      | none ↦ return true
      | some o ↦ handle_handshake m sender proxy_addr (int_value o.value)
    ]
  ]

  -- securityInputLayer. Where receiveHandshake says not to go on and has no error, none is returned, and
  -- the message is as it came.
  unfoldable pub security_input_layer : CoapMessage → List ℕ → List ℕ → M p CoapMessage
  security_input_layer m sender proxy_addr =
      proxy_with_id p url chance tr proxy_addr >>= λ proxy_addr'.
      receive_handshake m sender proxy_addr' >>= λ go_on.
      if not go_on then return m else handle_coaps_scheme m sender proxy_addr'

  -- localStateSecurityInputLayer: the message, if the handler is to go on.
  unfoldable pub local_state_security_input_layer :
      CoapMessage → List ℕ → List ℕ → M p (Option CoapMessage)
  local_state_security_input_layer m sender proxy_addr =
      proxy_with_id p url chance tr proxy_addr >>= λ proxy_addr'.
      receive_handshake m sender proxy_addr' >>= λ go_on.
      if not go_on
      then return none
      else (handle_coaps_scheme m sender proxy_addr' >>= λ m'. return (some m'))

  -- preparationReceivingBuffer
  unfoldable pub preparation_receiving_buffer : List ℕ → List ℕ → List ℕ → M p CoapMessage
  preparation_receiving_buffer bytes sender proxy_addr =
      give (checked_message (deserialize_checked bytes) sender) >>= λ m.
      security_input_layer m sender proxy_addr

  -- What receiveMessage does with a datagram: it goes on reading, or it returns.
  unfoldable pub after_datagram :
      CoapMessage → M p CoapMessage → Result CoapMessage × Host p → Result CoapMessage × Host p
  after_datagram orig rest (Result.ok m, h) =
      if bytes_eq m.token orig.token then (Result.ok m, h) else rest h
  after_datagram orig rest (Result.err e, h) = if is_mismatch e then rest h else (Result.err e, h)
  after_datagram orig rest (other, h) = (other, h)

  -- The loop of receiveMessage over what the connection gives, each with its time.
  unfoldable pub receive_loop : CoapMessage → List (ℕ × Reading) → M p CoapMessage
  receive_loop orig [] h = (Result.blocked, record h { incoming = [] })
  receive_loop orig ((at, Reading.deadline) ∷ later) h =
      (Result.err Error.max_attempts, record h { now = at; incoming = later })
  receive_loop orig ((at, Reading.broken e) ∷ later) h =
      (Result.err e, record h { now = at; incoming = later })
  receive_loop orig ((at, Reading.arrived bytes) ∷ later) h =
      let rest = receive_loop orig later in
      let h' = record h { now = at; incoming = later } in
      if ltb mtu (length bytes)
      then rest h'
      else after_datagram orig rest
          (preparation_receiving_buffer bytes tr.remote_addr orig.proxy_addr h')

  -- receiveMessage; the deadline of each read is in the times of the readings.
  unfoldable pub receive_message : CoapMessage → M p CoapMessage
  receive_message orig h = receive_loop orig h.incoming h
