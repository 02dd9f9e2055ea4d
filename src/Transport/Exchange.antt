-- ===== src/Transport/Exchange.antt =====
-- transport.go and security.go: a request and its response, with the client's side of the handshake.
use coalago.Base.{
  ℕ, zero, suc, ◌+◌, Bool, true, false, Option, none, some, List, [], ◌∷◌, ◌==◌, ◌&&◌, ◌||◌, not,
  ltb, length, if◌then◌else◌,
}
use coalago.Base.Int.{ℤ, pos, int_eq}
use coalago.Arq.{ack_to}
use coalago.Arq.Receive.{Chunk, no_total}
use coalago.Arq.Receive.Download.{Taken, block_of, take}
use coalago.Block.{get_block2}
use coalago.Constants.{
  Error, con, non, ack, rst, coaps_scheme, code_empty, code_continue, code_get, client_hello,
  peer_hello, option_handshake_type, option_proxy_uri, option_proxy_security_id, max_send_attempts,
}
use coalago.Encryption.{UrlParser}
use coalago.Message.{
  Payload, CoapMessage, payload_bytes, is_big_payload, get_option, add_option, clone_options,
}
use coalago.Options.{Value, int_value}
use coalago.Results.{Result}
use coalago.Session.{Primitives, SecuredSession, new_secured_session, confirm, verify}
use coalago.Transport.{
  Endpoint, Chance, Host, M, ◌>>=◌, give, return, fail, ignoring_error, fresh_message, written_to,
}
use coalago.Transport.Input.{receive_message}
use coalago.Transport.Output.{
  with_id, set_proxy_id_if_need, get_session_for_address, set_session_for_address,
  preparation_sending_message, send_to_socket, send_ack,
}
use coalago.Uri.{get_scheme}

-- isPingACK
unfoldable pub is_ping_ack : CoapMessage → Bool
is_ping_ack m = (m.type == rst) && (m.code == code_empty)

-- newClientHelloMessage of a new message with a new token
unfoldable pub client_hello_of : CoapMessage → List ℕ → List ℕ → CoapMessage → CoapMessage
client_hello_of orig my_public_key token m =
    let m' = add_option option_handshake_type (Value.int (pos client_hello)) m in
    let m'' =
      clone_options orig (option_proxy_uri ∷ option_proxy_security_id ∷ [])
        (record m' { payload = some (Payload.bytes_payload my_public_key); token = token }) in
    record m'' { proxy_addr = orig.proxy_addr }

-- The errors after which Send tries once more.
abbrev pub is_session_error : Error → Bool
is_session_error Error.session_expired_error = true
is_session_error Error.session_not_found_error = true
is_session_error Error.client_session_expired = true
is_session_error Error.client_session_not_found = true
is_session_error e = false

abbrev pub again_after :
    {p : Primitives} {A : Type 0} → M p A → Result A × Host p → Result A × Host p
again_after again (Result.err e, h) = if is_session_error e then again h else (Result.err e, h)
again_after again (other, h) = (other, h)

abbrev pub is_timeout : Error → Bool
is_timeout Error.max_attempts = true
is_timeout e = false

-- What goes on after a timeout, and what with a message.
abbrev pub unless_timeout :
    {p : Primitives} {A B : Type 0} → M p B → (A → M p B) → Result A × Host p → Result B × Host p
unless_timeout after f (Result.ok a, h) = f a h
unless_timeout after f (Result.err e, h) = if is_timeout e then after h else (Result.err e, h)
unless_timeout after f (Result.panic, h) = (Result.panic, h)
unless_timeout after f (Result.blocked, h) = (Result.blocked, h)

-- The key in the answer to a hello, which is nil in any other message.
unfoldable pub peer_key_in : CoapMessage → Result (List ℕ)
peer_key_in m = elim (get_option option_handshake_type m) [
  | none ↦ Result.ok []
  | some o ↦
      if int_eq (int_value o.value) (pos peer_hello)
      then (elim m.payload [ none ↦ Result.panic | some load ↦ Result.ok (payload_bytes load) ])
      else Result.ok []
]

-- BreakConnectionOnPK of the original message.
unfoldable pub accepted_key : CoapMessage → List ℕ → Result (List ℕ)
accepted_key orig key = elim orig.break_connection_on_pk [
  | none ↦ Result.ok key
  | some breaks ↦ if breaks key then Result.err Error.keys_not_match else Result.ok key
]

module _ (p : Primitives) (url : UrlParser) (chance : Chance) (tr : Endpoint)
    (send_blocks : CoapMessage → List ℕ → M p (Unit {0})) where
  -- The end of receiveARQBlock2: the answer to the last block.
  unfoldable pub finished : CoapMessage → CoapMessage → List ℕ → M p CoapMessage
  finished orig m bytes =
      let m' = record m { payload = some (Payload.bytes_payload bytes) } in
      send_ack p url chance tr (ack_to (some orig) m' code_empty) >>= λ _. return m'

  -- What the loop of receiveARQBlock2 does with a message; `again` is the next round.
  unfoldable pub next_round :
      CoapMessage
      → CoapMessage
      → (ℤ → List Chunk → M p CoapMessage)
      → ℤ
      → List Chunk
      → Taken
      → M p CoapMessage
  next_round orig m again total buf Taken.skip = again total buf
  next_round orig m again total buf Taken.crash = give Result.panic
  next_round orig m again total buf (Taken.took c) = elim c.whole [
    | some bytes ↦ finished orig m bytes
    | none ↦ send_ack p url chance tr (ack_to (some orig) m code_continue) >>= λ _.
        again c.total_blocks c.buffer
  ]

  -- The loop, for at most `fuel` messages or timeouts.
  unfoldable pub download_loop : ℕ → CoapMessage → ℕ → ℤ → List Chunk → M p CoapMessage
  download_loop zero orig attempts total buf h = (Result.blocked, h)
  download_loop (suc fuel) orig attempts total buf h =
      unless_timeout
        (elim (attempts == max_send_attempts) [
          | true ↦ fail Error.max_attempts
          | false ↦ download_loop fuel orig (attempts + 1) total buf
        ])
        (λ m.
          next_round orig m (download_loop fuel orig attempts) total buf
            (take (block_of m) m.payload total buf))
        (receive_message p url chance tr send_blocks orig h)

  -- A write whose error is not looked at.
  unfoldable pub answered_anyway : CoapMessage → M p (Unit {0})
  answered_anyway m = ignoring_error (send_ack p url chance tr m)

  -- The loop of receiveARQBlock2 with what it starts from.
  unfoldable pub download_rounds : CoapMessage → ℤ → List Chunk → M p CoapMessage
  download_rounds orig total buf h = download_loop (suc (length h.incoming)) orig 0 total buf h

  -- receiveARQBlock2, which first looks at the message that it is given.
  unfoldable pub first_round : CoapMessage → CoapMessage → Taken → M p CoapMessage
  first_round orig m Taken.skip = download_rounds orig no_total []
  first_round orig m Taken.crash = give Result.panic
  first_round orig m (Taken.took c) = elim c.whole [
    | some bytes ↦
        let m' = record m { payload = some (Payload.bytes_payload bytes) } in
        answered_anyway (ack_to (some orig) m' code_empty) >>= λ _. return m'
    | none ↦ answered_anyway (ack_to (some orig) m code_continue) >>= λ _.
        download_rounds orig c.total_blocks c.buffer
  ]

  unfoldable pub download_after : CoapMessage → Option CoapMessage → M p CoapMessage
  download_after orig none = download_rounds orig no_total []
  download_after orig (some m) = first_round orig m (take (block_of m) m.payload no_total [])

  -- What sendCON does with a response.
  unfoldable pub take_response : CoapMessage → CoapMessage → M p CoapMessage
  take_response orig m =
      if is_ping_ack m
      then return m
      else if (m.type == ack) && (m.code == code_empty)
      then download_after orig none
      else elim (get_block2 m) [ none ↦ return m | some b ↦ download_after orig (some m) ]

  -- The loop of sendCON, with the attempts that are left.
  unfoldable pub attempt_loop : ℕ → List ℕ → CoapMessage → M p CoapMessage
  attempt_loop zero bytes orig = fail Error.max_attempts
  attempt_loop (suc left) bytes orig = written_to tr.remote_addr bytes (tr.write bytes) >>= λ _ h.
      unless_timeout (attempt_loop left bytes orig) (take_response orig)
        (receive_message p url chance tr send_blocks orig h)

  module _ (send_blocks1 : CoapMessage → M p CoapMessage) where
    -- sendCON; `send_blocks1` is sendARQBlock1CON, as in Transport/Blocks.
    unfoldable pub send_con : CoapMessage → M p CoapMessage
    send_con m =
        if is_big_payload m
        then send_blocks1 m
        else (preparation_sending_message p url chance tr m tr.remote_addr >>= λ bytes.
            attempt_loop max_send_attempts bytes m)

    -- Send of a CON message with the scheme coap, such as the client's hello.
    unfoldable pub send_unsecured : CoapMessage → M p CoapMessage
    send_unsecured m h = again_after (send_con m) (send_con m h)

    -- sendHelloFromClient; newClientHelloMessage draws the token of the message and another one.
    unfoldable pub drawn_token : M p (List ℕ)
    drawn_token h = (Result.ok (chance.token h.draws), record h { draws = h.draws + 1 })

    unfoldable pub send_hello_from_client : CoapMessage → List ℕ → M p (List ℕ)
    send_hello_from_client orig my_public_key = fresh_message chance con code_get >>= λ m.
        drawn_token >>= λ token.
        send_unsecured (client_hello_of orig my_public_key token m) >>= λ r.
        give (peer_key_in r) >>= λ key. give (accepted_key orig key)

    -- The end of handshake: the session after Verify is stored.
    unfoldable pub kept_session : List ℕ → SecuredSession p × Option Error → M p (SecuredSession p)
    kept_session proxy_addr (s, some e) = fail e
    kept_session proxy_addr (s, none) =
        set_session_for_address p url chance tr s tr.local_addr tr.remote_addr proxy_addr >>= λ _.
        return s

    unfoldable pub new_session : M p (SecuredSession p)
    new_session h = (
      new_secured_session p tr.private_key (chance.key h.draws),
      record h { draws = h.draws + 1 },
    )

    -- handshake, with the remote address of the connection
    unfoldable pub handshake : CoapMessage → List ℕ → M p (SecuredSession p)
    handshake m proxy_addr =
        get_session_for_address p url chance tr tr.local_addr tr.remote_addr proxy_addr >>= λ found.
        elim found [
          | some s ↦ return s
          | none ↦ new_session >>= λ s. send_hello_from_client m s.curve.public_key >>= λ key.
              kept_session proxy_addr (confirm p (verify p) (record s { peer_public_key = key }))
        ]

    -- The start of Send for a CON message: the message, which may get the proxy's id.
    unfoldable pub secured : CoapMessage → M p CoapMessage
    secured m =
        if not (get_scheme m == coaps_scheme)
        then return m
        else if ltb 0 (length m.proxy_addr)
        then (set_proxy_id_if_need p url chance tr m tr.local_addr >>= λ (m', id).
            handshake m' (with_id m'.proxy_addr id) >>= λ _. return m')
        else (handshake m [] >>= λ _. return m)

    -- Send
    unfoldable pub send : CoapMessage → M p (Option CoapMessage)
    send m =
        if m.type == con
        then ((secured m >>= λ m' h. again_after (secured m' >>= send_con) (send_con m' h)) >>= λ r.
            return (some r))
        else if m.type == rst || m.type == non
        then (send_to_socket p url chance tr m >>= λ _. return none)
        else fail Error.unsupported_type
