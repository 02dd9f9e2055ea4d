-- ===== src/Server/Sending.antt =====
-- server.go: a request that a server sends from its own socket, and its handshake.
use coalago.Base.{
  ℕ, zero, suc, ◌+◌, Option, none, some, List, [], ◌∷◌, ◌==◌, not, ltb, length, if◌then◌else◌,
}
use coalago.Constants.{Error, con, code_get, coaps_scheme}
use coalago.Encryption.{UrlParser}
use coalago.Message.{CoapMessage}
use coalago.Results.{Result}
use coalago.Session.{Primitives, SecuredSession, new_secured_session, confirm, verify}
use coalago.Transport.{Endpoint, Chance, M, ◌>>=◌, give, return, fail, fresh_message, written_to}
use coalago.Transport.Exchange.{client_hello_of, again_after, peer_key_in, accepted_key}
use coalago.Transport.Output.{
  with_id, set_proxy_id_if_need, get_session_for_address, set_session_for_address,
  preparation_sending_message,
}
use coalago.Uri.{get_scheme}

-- `tr` is the transport of the server, or the TCP transport that connStorage has for the address.
module _ (p : Primitives) (url : UrlParser) (chance : Chance) (tr : Endpoint) where
  -- sendTo, with the steps of preparationSendingMessage
  unfoldable pub server_send_to : CoapMessage → List ℕ → M p (Unit {0})
  server_send_to m addr = preparation_sending_message p url chance tr m addr >>= λ bytes.
      written_to addr bytes (tr.write_to bytes addr)

  -- The loop of send, for the rounds that are left: a message of the channel, or its timer.
  unfoldable pub next_handed : M p (Option CoapMessage)
  next_handed h = elim h.handed [
    | [] ↦ (Result.blocked, h)
    | o ∷ rest ↦ (Result.ok o, record h { handed = rest })
  ]

  unfoldable pub answer_or : Option CoapMessage → M p CoapMessage → M p CoapMessage
  answer_or none again = again
  answer_or (some m) again = return m

  unfoldable pub wait_loop : ℕ → CoapMessage → List ℕ → M p CoapMessage
  wait_loop zero m addr = fail Error.timeout
  wait_loop (suc rounds) m addr =
      next_handed >>= λ o. answer_or o (server_send_to m addr >>= λ _. wait_loop rounds m addr)

  -- send
  unfoldable pub server_send : ℕ → CoapMessage → List ℕ → M p CoapMessage
  server_send retries m addr = server_send_to m addr >>= λ _. wait_loop (retries + 1) m addr

  -- sendHelloFromServer: its Send of the hello, which has the scheme coap, is send.
  unfoldable pub server_token : M p (List ℕ)
  server_token h = (Result.ok (chance.token h.draws), record h { draws = h.draws + 1 })

  unfoldable pub send_hello_from_server : CoapMessage → List ℕ → List ℕ → M p (List ℕ)
  send_hello_from_server orig my_public_key addr = fresh_message chance con code_get >>= λ m.
      server_token >>= λ token.
      server_send 0 (client_hello_of orig my_public_key token m) addr >>= λ r.
      give (peer_key_in r) >>= λ key. give (accepted_key orig key)

  -- serverHandshake: a session that is there, or the one that a hello starts.
  unfoldable pub server_session : M p (SecuredSession p)
  server_session h =
      (new_secured_session p tr.private_key (chance.key h.draws), record h { draws = h.draws + 1 })

  unfoldable pub kept_server_session :
      List ℕ → List ℕ → SecuredSession p × Option Error → M p (SecuredSession p)
  kept_server_session addr proxy_addr (s, some e) = fail e
  kept_server_session addr proxy_addr (s, none) =
      set_session_for_address p url chance tr s tr.local_addr addr proxy_addr >>= λ _. return s

  unfoldable pub session_or :
      CoapMessage → List ℕ → List ℕ → Option (SecuredSession p) → M p (SecuredSession p)
  session_or m addr proxy_addr (some s) = return s
  session_or m addr proxy_addr none = server_session >>= λ s.
      send_hello_from_server m s.curve.public_key addr >>= λ key.
      kept_server_session addr proxy_addr
        (confirm p (verify p) (record s { peer_public_key = key }))

  unfoldable pub server_handshake : CoapMessage → List ℕ → List ℕ → M p (SecuredSession p)
  server_handshake m addr proxy_addr =
      get_session_for_address p url chance tr tr.local_addr addr proxy_addr
      >>= session_or m addr proxy_addr

  -- The proxy's address of Send, and the message that may get the proxy's id.
  unfoldable pub with_proxy_id : CoapMessage → M p (CoapMessage × List ℕ)
  with_proxy_id m =
      if ltb 0 (length m.proxy_addr)
      then (set_proxy_id_if_need p url chance tr m tr.local_addr >>= λ (m', id).
          return (m', with_id m'.proxy_addr id))
      else return (m, [])

  -- The first attempt of Send for the scheme coaps, and the second after an error of the session.
  unfoldable pub send_twice : ℕ → List ℕ → List ℕ → CoapMessage → M p CoapMessage
  send_twice retries addr proxy_addr m h =
      again_after (server_handshake m addr proxy_addr >>= λ _. server_send retries m addr)
        (server_send 0 m addr h)

  -- Send
  unfoldable pub server_request : ℕ → CoapMessage → List ℕ → M p CoapMessage
  server_request retries m addr =
      if not (get_scheme m == coaps_scheme)
      then server_send retries m addr
      else (with_proxy_id m >>= λ (m', proxy_addr).
          server_handshake m' addr proxy_addr >>= λ _. send_twice retries addr proxy_addr m')
