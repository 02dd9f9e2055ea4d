-- ===== src/Transport/Output.antt =====
-- security.go and transport.go: how a message is secured and written.
use coalago.Base.{
  ℕ, ◌+◌, true, Option, none, some, List, ◌++◌, ◌==◌, ◌&&◌, ◌||◌, not, ltb, length, if◌then◌else◌,
}
use coalago.Base.Text.{itoa}
use coalago.Checksum.{apply_checksum}
use coalago.Codec.{serialize}
use coalago.Constants.{
  Error, ack, non, rst, coaps_scheme, option_proxy_uri, option_proxy_security_id,
}
use coalago.Encryption.{UrlParser, encrypt}
use coalago.Message.{CoapMessage, clone, get_option, add_option, is_big_payload}
use coalago.Options.{Value}
use coalago.Results.{Result}
use coalago.Session.{Primitives, SecuredSession}
use coalago.Storage.{get_item, set_item}
use coalago.Storage.Sessions.{get_session, set_session, delete_session}
use coalago.Transport.{
  Endpoint, Chance, Host, M, ◌>>=◌, give, return, fail, written_to, drawn_messages,
}
use coalago.Uri.{get_scheme}

-- fmt.Sprintf("%v%v", proxyAddr, proxyID)
abbrev pub with_id : List ℕ → ℕ → List ℕ
with_id proxy_addr id = proxy_addr ++ itoa id

-- proxyAddr with its id, if there is one: `id` is what getProxyIDIfNeed gives.
unfoldable pub identified : List ℕ → Option ℕ → List ℕ
identified proxy_addr none = proxy_addr
identified proxy_addr (some id) = with_id proxy_addr id

module _ (p : Primitives) (url : UrlParser) (chance : Chance) (tr : Endpoint) where
  -- Get of proxyIDSessions
  unfoldable pub proxy_id_at : List ℕ → M p (Option ℕ)
  proxy_id_at key h =
      let r = get_item h.now key h.proxy_ids in (Result.ok r.0, record h { proxy_ids = r.1 })

  -- setProxyIDIfNeed of a message with the proxy option.
  unfoldable pub kept_or_drawn : List ℕ → Option ℕ → M p ℕ
  kept_or_drawn key (some v) h = (Result.ok v, h)
  kept_or_drawn key none h =
      let v = chance.word h.draws in
      (Result.ok v, record h { draws = h.draws + 1; proxy_ids = set_item h.now key v h.proxy_ids })

  -- setProxyIDIfNeed: the message that it changes, and the id.
  unfoldable pub set_proxy_id_if_need : CoapMessage → List ℕ → M p (CoapMessage × ℕ)
  set_proxy_id_if_need m sender_addr = elim (get_option option_proxy_uri m) [
    | none ↦ return (m, 0)
    | some o ↦
        let key = m.proxy_addr ++ sender_addr in
        proxy_id_at key >>= kept_or_drawn key >>= λ v.
        return (add_option option_proxy_security_id (Value.uint32 v) m, v)
  ]

  -- getProxyIDIfNeed
  unfoldable pub get_proxy_id_if_need : List ℕ → List ℕ → M p (Option ℕ)
  get_proxy_id_if_need proxy_addr sender_addr = proxy_id_at (proxy_addr ++ sender_addr)

  -- The proxy's address with its id, as securityOutputLayer and securityInputLayer make it.
  unfoldable pub proxy_with_id : List ℕ → M p (List ℕ)
  proxy_with_id proxy_addr =
      if ltb 0 (length proxy_addr)
      then (get_proxy_id_if_need proxy_addr tr.local_addr >>= λ id.
          return (identified proxy_addr id))
      else return proxy_addr

  -- getSessionForAddress: a session that is found is set again.
  unfoldable pub touched : List ℕ → List ℕ → List ℕ → Option (SecuredSession p) → Host p → Host p
  touched sender receiver proxy none h = h
  touched sender receiver proxy (some s) h = record h {
    sessions = set_session h.now sender receiver proxy s h.sessions;
  }

  unfoldable pub get_session_for_address :
      List ℕ → List ℕ → List ℕ → M p (Option (SecuredSession p))
  get_session_for_address sender receiver proxy h =
      let r = get_session h.now sender receiver proxy h.sessions in
      (Result.ok r.0, touched sender receiver proxy r.0 (record h { sessions = r.1 }))

  -- setSessionForAddress
  unfoldable pub set_session_for_address :
      SecuredSession p → List ℕ → List ℕ → List ℕ → M p (Unit {0})
  set_session_for_address s sender receiver proxy h =
      (Result.ok tt, record h { sessions = set_session h.now sender receiver proxy s h.sessions })

  -- deleteSessionForAddress
  unfoldable pub delete_session_for_address : List ℕ → List ℕ → List ℕ → M p (Unit {0})
  delete_session_for_address sender receiver proxy h =
      (Result.ok tt, record h { sessions = delete_session sender receiver proxy h.sessions })

  -- The end of securityOutputLayer.
  unfoldable pub encrypted_for : CoapMessage → List ℕ → Option (SecuredSession p) → M p CoapMessage
  encrypted_for m addr none = fail Error.client_session_not_found
  encrypted_for m addr (some s) = give (encrypt p url m addr s.aead)

  -- securityOutputLayer: the message as it changes it.
  unfoldable pub security_output_layer : CoapMessage → List ℕ → M p CoapMessage
  security_output_layer m addr =
      if not (get_scheme m == coaps_scheme)
      then return m
      else (set_proxy_id_if_need m tr.local_addr >>= λ (m', id).
          proxy_with_id m'.proxy_addr >>= λ proxy_addr.
          get_session_for_address tr.local_addr addr proxy_addr >>= encrypted_for m' addr)

  -- preparationSendingMessage
  unfoldable pub with_checksum : CoapMessage → CoapMessage
  with_checksum m = if m.add_checksum_on_send then apply_checksum m else m

  unfoldable pub preparation_sending_message : CoapMessage → List ℕ → M p (List ℕ)
  preparation_sending_message m addr =
      security_output_layer (clone true m) addr >>= λ m'. return (serialize (with_checksum m')).0

  -- sendToSocket
  unfoldable pub send_to_socket : CoapMessage → M p (Unit {0})
  send_to_socket m = preparation_sending_message m tr.remote_addr >>= λ bytes.
      written_to tr.remote_addr bytes (tr.write bytes)

  -- sendToSocket of what ackTo makes
  unfoldable pub send_ack : CoapMessage → M p (Unit {0})
  send_ack m = drawn_messages 1 >>= λ _. send_to_socket m

  -- sendToSocketByAddress
  unfoldable pub send_to_socket_by_address : CoapMessage → List ℕ → M p (Unit {0})
  send_to_socket_by_address m addr =
      preparation_sending_message m addr >>= λ bytes. written_to addr bytes (tr.write_to bytes addr)

  -- sendACKTo; `send_blocks` is sendARQBlock2ACK with its channel, as in Transport/Blocks.
  unfoldable pub send_ack_to :
      (CoapMessage → List ℕ → M p (Unit {0})) → CoapMessage → List ℕ → M p (Unit {0})
  send_ack_to send_blocks m addr =
      if (m.type == ack) && is_big_payload m
      then send_blocks m addr
      else send_to_socket_by_address m addr

  -- SendTo
  unfoldable pub send_to :
      (CoapMessage → List ℕ → M p (Unit {0})) → CoapMessage → List ℕ → M p (Unit {0})
  send_to send_blocks m addr =
      if m.type == ack || m.type == non || m.type == rst
      then send_ack_to send_blocks m addr
      else fail Error.unsupported_type
