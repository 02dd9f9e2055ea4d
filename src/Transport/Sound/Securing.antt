-- ===== src/Transport/Sound/Securing.antt =====
-- security.go and transport.go: the sending of a message is safe.
use coalago.Base.{
  refl, ℕ, Option, none, some, List, Option-cases, inl, inr, ◌≡◌, Bool, true, ◌==◌, ◌&&◌, arith,
}
use coalago.Constants.{Error, ack, option_proxy_uri}
use coalago.Encryption.{UrlParser}
use coalago.Encryption.Ready.{encrypt-Gives}
use coalago.Message.{CoapMessage, get_option, is_big_payload}
use coalago.Message.Fields.{add_option-keeps}
use coalago.Results.{Result}
use coalago.Session.{Primitives, SecuredSession}
use coalago.Session.Ready.{IsReady, Anything}
use coalago.Storage.{Cache}
use coalago.Storage.Contents.{
  StoresOnly, IfFound, set_item-StoresOnly, get_item-StoresOnly, delete_item-StoresOnly,
}
use coalago.Storage.Sessions.{get_session, set_session, delete_session}
use coalago.Transport.{
  Endpoint, Chance, Host, M, ◌>>=◌, written_to, fresh_message, fresh_message_id, drawn_messages,
}
use coalago.Transport.Output.{
  proxy_id_at, kept_or_drawn, set_proxy_id_if_need, get_proxy_id_if_need, proxy_with_id, touched,
  get_session_for_address, set_session_for_address, delete_session_for_address, encrypted_for,
  security_output_layer, preparation_sending_message, send_to_socket, send_ack,
  send_to_socket_by_address, send_ack_to, send_to,
}
use coalago.Transport.Sound.{
  IsReadySession, Ends, Safe, safe_rules, Safe-bind, Safe-then, Safe-return, Safe-give, Safe-fail,
  Safe-if, Safe-when,
}

module _ {p : Primitives} where
  pub written_to-Safe :
      (to bytes : List ℕ) (failure : Option Error)
      → Safe {p = p} Anything (written_to to bytes failure)
  unfolding written_to
  written_to-Safe to bytes none = record {
    from_host = λ h s. Ends.done tt _ (record { ready = s.ready }) tt;
  }
  written_to-Safe to bytes (some e) = record { from_host = λ h s. Ends.failed e h s }

  pub fresh_message-Safe :
      (chance : Chance) (type code : ℕ) → Safe {p = p} Anything (fresh_message chance type code)
  unfolding fresh_message
  fresh_message-Safe chance type code = record {
    from_host = λ h s. Ends.done _ _ (record { ready = s.ready }) tt;
  }

  pub fresh_message_id-Safe :
      (chance : Chance) (type code id : ℕ)
      → Safe {p = p} Anything (fresh_message_id chance type code id)
  unfolding fresh_message_id
  fresh_message_id-Safe chance type code id = record {
    from_host = λ h s. Ends.done _ _ (record { ready = s.ready }) tt;
  }

  pub drawn_messages-Safe : (n : ℕ) → Safe {p = p} Anything (drawn_messages n)
  unfolding drawn_messages
  drawn_messages-Safe n = record {
    from_host = λ h s. Ends.done _ _ (record { ready = s.ready }) tt;
  }

module _ (p : Primitives) (url : UrlParser) (chance : Chance) (tr : Endpoint) where
  proxy_id_at-Safe : (key : List ℕ) → Safe Anything (proxy_id_at p url chance tr key)
  unfolding proxy_id_at
  proxy_id_at-Safe key = record { from_host = λ h s. Ends.done _ _ (record { ready = s.ready }) tt }

  kept_or_drawn-Safe :
      (key : List ℕ) (o : Option ℕ) → Safe Anything (kept_or_drawn p url chance tr key o)
  unfolding kept_or_drawn
  kept_or_drawn-Safe key none = record {
    from_host = λ h s. Ends.done _ _ (record { ready = s.ready }) tt;
  }
  kept_or_drawn-Safe key (some v) = record { from_host = λ h s. Ends.done v h s tt }

  pub set_proxy_id_if_need-Safe :
      (m : CoapMessage) (sender : List ℕ)
      → Safe Anything (set_proxy_id_if_need p url chance tr m sender)
  unfolding set_proxy_id_if_need
  set_proxy_id_if_need-Safe m sender = elim (Option-cases (get_option option_proxy_uri m)) [
    | inl e ↦ rw (e, set_proxy_id_if_need) (search safe_rules)
    | inr (o, e) ↦
        rw (e, set_proxy_id_if_need) (search (safe_rules, proxy_id_at-Safe, kept_or_drawn-Safe))
  ]

  -- It changes the options of the message only.
  pub set_proxy_id_if_need-keeps :
      (m : CoapMessage) (sender : List ℕ)
      → Safe (λ r. r.0.payload ≡ m.payload) (set_proxy_id_if_need p url chance tr m sender)
  unfolding set_proxy_id_if_need
  set_proxy_id_if_need-keeps m sender = elim (Option-cases (get_option option_proxy_uri m)) [
    | inl e ↦ rw (e, set_proxy_id_if_need) (Safe-return (λ r. r.0.payload ≡ m.payload) (m, 0) refl)
    | inr (o, e) ↦
        rw (e, set_proxy_id_if_need)
          (Safe-then (λ r. r.0.payload ≡ m.payload) _ _
            (Safe-then Anything _ _ (proxy_id_at-Safe _) (kept_or_drawn-Safe _))
            (λ v.
              Safe-return (λ r. r.0.payload ≡ m.payload) (_, v)
                (add_option-keeps (λ n. n.payload) (λ n os. refl) _ _ m)))
  ]

  pub proxy_with_id-Safe :
      (proxy_addr : List ℕ) → Safe Anything (proxy_with_id p url chance tr proxy_addr)
  unfolding proxy_with_id get_proxy_id_if_need
  proxy_with_id-Safe proxy_addr = search (safe_rules, proxy_id_at-Safe)

  -- The session that is found has its ciphers.
  pub get_session_for_address-Safe :
      (sender receiver proxy : List ℕ)
      → Safe
          (IfFound IsReadySession)
          (get_session_for_address p url chance tr sender receiver proxy)
  unfolding get_session_for_address touched get_session set_session
  get_session_for_address-Safe sender receiver proxy = record {
    from_host = λ h s.
        let (held, kept) = get_item-StoresOnly IsReadySession h.now _ h.sessions s.ready in
        touching h _ held kept;
  }
    where
      touching :
          (h : Host p) (r : Option (SecuredSession p) × Cache (SecuredSession p))
          → IfFound IsReadySession r.0
          → StoresOnly IsReadySession r.1
          → Ends (IfFound IsReadySession) (
            Result.ok r.0,
            touched p url chance tr sender receiver proxy r.0 (record h { sessions = r.1 }),
          )
      touching h (_, c) IfFound.missing kept =
          Ends.done _ _ (record { ready = kept }) IfFound.missing
      touching h (_, c) (IfFound.found v q) kept =
          Ends.done _ _ (record { ready = set_item-StoresOnly IsReadySession h.now _ v c q kept })
            (IfFound.found v q)

  pub set_session_for_address-Safe :
      (s : SecuredSession p) (sender receiver proxy : List ℕ)
      → IsReady p s.aead
      → Safe Anything (set_session_for_address p url chance tr s sender receiver proxy)
  unfolding set_session_for_address set_session
  set_session_for_address-Safe s sender receiver proxy ready = record {
    from_host = λ h k.
        Ends.done tt _
          (record { ready = set_item-StoresOnly IsReadySession h.now _ s h.sessions ready k.ready })
          tt;
  }

  pub delete_session_for_address-Safe :
      (sender receiver proxy : List ℕ)
      → Safe Anything (delete_session_for_address p url chance tr sender receiver proxy)
  unfolding delete_session_for_address delete_session
  delete_session_for_address-Safe sender receiver proxy = record {
    from_host = λ h k.
        Ends.done tt _
          (record { ready = delete_item-StoresOnly IsReadySession _ h.sessions k.ready }) tt;
  }

  encrypted_for-Safe :
      (m : CoapMessage) (addr : List ℕ) (o : Option (SecuredSession p))
      → IfFound IsReadySession o
      → Safe Anything (encrypted_for p url chance tr m addr o)
  unfolding encrypted_for
  encrypted_for-Safe m addr _ IfFound.missing = Safe-fail Anything _
  encrypted_for-Safe m addr _ (IfFound.found s ready) =
      Safe-give Anything _ (encrypt-Gives p url s.aead ready m addr)

  security_output_layer-Safe :
      (m : CoapMessage) (addr : List ℕ)
      → Safe Anything (security_output_layer p url chance tr m addr)
  unfolding security_output_layer
  security_output_layer-Safe m addr =
      search (safe_rules, set_proxy_id_if_need-Safe, proxy_with_id-Safe, secured)
    where
      secured :
          (n : CoapMessage) (proxy_addr : List ℕ)
          → Safe Anything (
              get_session_for_address p url chance tr tr.local_addr addr proxy_addr
              >>= encrypted_for p url chance tr n addr)
      secured n proxy_addr =
          Safe-bind (IfFound IsReadySession) Anything _ _
            (get_session_for_address-Safe tr.local_addr addr proxy_addr) (encrypted_for-Safe n addr)

  pub preparation_sending_message-Safe :
      (m : CoapMessage) (addr : List ℕ)
      → Safe Anything (preparation_sending_message p url chance tr m addr)
  unfolding preparation_sending_message
  preparation_sending_message-Safe m addr = search (safe_rules, security_output_layer-Safe)

  pub send_to_socket-Safe : (m : CoapMessage) → Safe Anything (send_to_socket p url chance tr m)
  unfolding send_to_socket
  send_to_socket-Safe m = search (safe_rules, preparation_sending_message-Safe, written_to-Safe)

  pub send_ack-Safe : (m : CoapMessage) → Safe Anything (send_ack p url chance tr m)
  unfolding send_ack
  send_ack-Safe m = search (safe_rules, drawn_messages-Safe, send_to_socket-Safe)

  pub send_to_socket_by_address-Safe :
      (m : CoapMessage) (addr : List ℕ)
      → Safe Anything (send_to_socket_by_address p url chance tr m addr)
  unfolding send_to_socket_by_address
  send_to_socket_by_address-Safe m addr =
      search (safe_rules, preparation_sending_message-Safe, written_to-Safe)

  pub send_to-Safe :
      (send_blocks : CoapMessage → List ℕ → M p (Unit {0})) (m : CoapMessage) (addr : List ℕ)
      → ((n : CoapMessage) (a : List ℕ) → is_big_payload n ≡ true → Safe Anything (send_blocks n a))
      → Safe Anything (send_to p url chance tr send_blocks m addr)
  unfolding send_to send_ack_to
  send_to-Safe send_blocks m addr blocks =
      Safe-if Anything _ _ _
        (Safe-when Anything _ _ _
          (λ e. blocks m addr (and_right (m.type == ack) (is_big_payload m) e))
          (send_to_socket_by_address-Safe m addr))
        (Safe-fail Anything _)
    where
      and_right : (b c : Bool) → (b && c) ≡ true → c ≡ true
      and_right b c e = ground arith
