-- ===== src/Transport/Sound/Receiving.antt =====
-- security.go, localstate.go and transport.go: the security layer of what comes in is safe.
use coalago.Base.{
  ℕ, ◌+◌, Bool, false, Option, none, some, List, Option-cases, Bool-cases, inl, inr, if◌then◌else◌,
  ◌≡◌, true,
}
use coalago.Base.Int.{ℤ, pos, int_eq}
use coalago.Constants.{Error, client_hello, option_handshake_type}
use coalago.Encryption.{UrlParser}
use coalago.Encryption.Ready.{HasPayload, decrypt-Gives}
use coalago.Message.{CoapMessage, get_option, payload_bytes, is_big_payload}
use coalago.Results.{Result}
use coalago.Session.{Primitives, SecuredSession}
use coalago.Session.Ready.{Gives, Anything, Started, peer_verify-Started, new_secured_session-Gives}
use coalago.Storage.Contents.{IfFound}
use coalago.Transport.{Endpoint, Chance, Host, M, fail}
use coalago.Transport.Input.{
  refuse, opened_message, with_session, opened, reported, handle_coaps_scheme, incoming_handshake,
  handshake_failure, or_handshake_error, peer_session_of, stamped, stored_session, answered_hello,
  handle_handshake, receive_handshake, security_input_layer, local_state_security_input_layer,
}
use coalago.Transport.Sound.{
  IsReadySession, IsSound, Ends, Safe, safe_rules, Safe-bind, Safe-fail, Safe-return, Safe-then,
  Safe-if, Safe-ignoring_error,
}
use coalago.Transport.Sound.Securing.{
  fresh_message_id-Safe, proxy_with_id-Safe, get_session_for_address-Safe,
  set_session_for_address-Safe, delete_session_for_address-Safe, send_to-Safe,
}

module _ {p : Primitives} where
  handshake_error-Safe :
      {A : Type 0} (Q : A → Type 0) (m : M p A) → Safe Q m → Safe Q (or_handshake_error m)
  unfolding or_handshake_error
  handshake_error-Safe {A} Q m k = record { from_host = λ h s. passed (m h) (k.from_host h s) }
    where
      passed : (r : Result A × Host p) → Ends Q r → Ends Q (handshake_failure r)
      passed _ (Ends.done a h s q) = Ends.done a h s q
      passed _ (Ends.failed e h s) = Ends.failed _ h s
      passed _ (Ends.waits h s) = Ends.waits h s

module _ (p : Primitives) (url : UrlParser) (chance : Chance) (tr : Endpoint)
    (send_blocks : CoapMessage → List ℕ → M p (Unit {0}))
    (blocks : (n : CoapMessage) (a : List ℕ)
      → is_big_payload n ≡ true
      → Safe Anything (send_blocks n a)) where
  refuse-Safe :
      (code : ℕ) (m : CoapMessage) (sender : List ℕ)
      → Safe Anything (refuse p url chance tr send_blocks code m sender)
  unfolding refuse
  refuse-Safe code m sender = search (
    safe_rules,
    fresh_message_id-Safe chance,
    Safe-ignoring_error Anything,
    send_to-Safe p url chance tr send_blocks,
    blocks,
  )

  opened_message-Safe :
      (m : CoapMessage) (sender proxy_addr : List ℕ) (s : SecuredSession p) (r : Result CoapMessage)
      → Gives HasPayload r
      → Safe HasPayload (opened_message p url chance tr send_blocks m sender proxy_addr s r)
  unfolding opened_message
  opened_message-Safe m sender proxy_addr s _ (Gives.given m' h) =
      Safe-return HasPayload _ (record { payload_there = h.payload_there })
  opened_message-Safe m sender proxy_addr s _ (Gives.refused e) =
      search (safe_rules, delete_session_for_address-Safe p url chance tr, refuse-Safe)

  with_session-Safe :
      (m : CoapMessage) (sender proxy_addr : List ℕ) (o : Option (SecuredSession p))
      → HasPayload m
      → IfFound IsReadySession o
      → Safe HasPayload (with_session p url chance tr send_blocks m sender proxy_addr o)
  unfolding with_session
  with_session-Safe m sender proxy_addr _ h IfFound.missing = search (safe_rules, refuse-Safe)
  with_session-Safe m sender proxy_addr _ h (IfFound.found s ready) =
      opened_message-Safe m sender proxy_addr s _ (decrypt-Gives p url s.aead ready m h)

  opened-Safe :
      (m : CoapMessage) (sender proxy_addr : List ℕ)
      → HasPayload m
      → Safe HasPayload (opened p url chance tr send_blocks m sender proxy_addr)
  unfolding opened
  opened-Safe m sender proxy_addr h =
      Safe-if HasPayload _ _ _
        (Safe-bind (IfFound IsReadySession) HasPayload _ _
          (get_session_for_address-Safe p url chance tr tr.local_addr sender proxy_addr)
          (λ o q. with_session-Safe m sender proxy_addr o h q))
        (Safe-return HasPayload m h)

  reported-Safe :
      (sender proxy_addr : List ℕ) (m : CoapMessage)
      → HasPayload m
      → Safe HasPayload (reported p url chance tr send_blocks sender proxy_addr m)
  unfolding reported
  reported-Safe sender proxy_addr m h =
      search (safe_rules, delete_session_for_address-Safe p url chance tr, h)

  pub handle_coaps_scheme-Safe :
      (m : CoapMessage) (sender proxy_addr : List ℕ)
      → HasPayload m
      → Safe HasPayload (handle_coaps_scheme p url chance tr send_blocks m sender proxy_addr)
  unfolding handle_coaps_scheme
  handle_coaps_scheme-Safe m sender proxy_addr h =
      Safe-bind HasPayload HasPayload _ _ (opened-Safe m sender proxy_addr h)
        (reported-Safe sender proxy_addr)

  peer_session_of-Safe :
      (o : Option (SecuredSession p))
      → Safe Anything (peer_session_of p url chance tr send_blocks o)
  unfolding peer_session_of
  peer_session_of-Safe (some s) = record { from_host = λ h k. Ends.done s h k tt }
  peer_session_of-Safe none = record {
    from_host = λ h k.
        made _ h k
          (new_secured_session-Gives p Anything tr.private_key (chance.key h.draws) (λ k. tt));
  }
    where
      made :
          (r : Result (SecuredSession p)) (h : Host p)
          → IsSound h
          → Gives Anything r
          → Ends Anything (r, record h { draws = h.draws + 1 })
      made _ h k (Gives.given s q) = Ends.done s _ (record { ready = k.ready }) tt
      made _ h k (Gives.refused e) = Ends.failed e _ (record { ready = k.ready })

  stored_session-Safe :
      (sender proxy_addr : List ℕ) (r : SecuredSession p × Option Error)
      → Started p r
      → Safe Anything (stored_session p url chance tr send_blocks sender proxy_addr r)
  unfolding stored_session
  stored_session-Safe sender proxy_addr (s, some e) ready = Safe-fail Anything _
  stored_session-Safe sender proxy_addr (s, none) ready =
      Safe-bind IsReadySession Anything _ _ stamping (λ s' q.
        Safe-then Anything _ _
          (set_session_for_address-Safe p url chance tr s' tr.local_addr sender proxy_addr q)
          (λ _. Safe-return Anything false tt))
    where
      stamping : Safe IsReadySession (stamped p url chance tr send_blocks s)
      stamping = unfold stamped in record { from_host = λ h k. Ends.done _ h k ready }

  answered_hello-Safe :
      (m : CoapMessage) (key sender proxy_addr : List ℕ) (s : SecuredSession p)
      → Safe Anything (answered_hello p url chance tr send_blocks m key sender proxy_addr s)
  unfolding answered_hello incoming_handshake
  answered_hello-Safe m key sender proxy_addr s = search (
    safe_rules,
    handshake_error-Safe Anything,
    fresh_message_id-Safe chance,
    send_to-Safe p url chance tr send_blocks,
    blocks,
    stored_session-Safe,
    peer_verify-Started p,
  )

  handle_handshake-Safe :
      (m : CoapMessage) (sender proxy_addr : List ℕ) (value : ℤ)
      → Safe Anything (handle_handshake p url chance tr send_blocks m sender proxy_addr value)
  unfolding handle_handshake
  handle_handshake-Safe m sender proxy_addr value =
      Safe-if Anything _ _ _ (Safe-return Anything false tt) (
        Safe-bind (IfFound IsReadySession) Anything _ _
          (get_session_for_address-Safe p url chance tr tr.local_addr sender proxy_addr)
          (λ o _.
            Safe-then Anything _ _ (handshake_error-Safe Anything _ (peer_session_of-Safe o))
              (λ s. with_payload s)))
    where
      with_payload :
          (s : SecuredSession p)
          → Safe {p = p} {A = Bool} Anything (elim m.payload [
            | none ↦ fail Error.handshake_error
            | some load ↦
                if int_eq value (pos client_hello)
                then answered_hello p url chance tr send_blocks m
                    (payload_bytes load)
                    sender
                    proxy_addr
                    s
                else fail Error.handshake_error
          ])
      with_payload s = elim (Option-cases m.payload) [
        | inl e ↦ rw e (Safe-fail Anything _)
        | inr (load, e) ↦ rw e (search (safe_rules, answered_hello-Safe))
      ]

  pub receive_handshake-Safe :
      (m : CoapMessage) (sender proxy_addr : List ℕ)
      → Safe Anything (receive_handshake p url chance tr send_blocks m sender proxy_addr)
  unfolding receive_handshake
  receive_handshake-Safe m sender proxy_addr = elim (Bool-cases m.is_proxies) [
    | inl e ↦ rw (e, receive_handshake) (search safe_rules)
    | inr e ↦
        rw (e, receive_handshake)
          (elim (Option-cases (get_option option_handshake_type m)) [
            | inl q ↦ rw (q, receive_handshake) (search safe_rules)
            | inr (o, q) ↦ rw (q, receive_handshake) (handle_handshake-Safe m sender proxy_addr _)
          ])
  ]

  -- A message with a payload that passes the layer still has one.
  pub security_input_layer-Safe :
      (m : CoapMessage) (sender proxy_addr : List ℕ)
      → HasPayload m
      → Safe HasPayload (security_input_layer p url chance tr send_blocks m sender proxy_addr)
  unfolding security_input_layer
  security_input_layer-Safe m sender proxy_addr h = search (
    safe_rules,
    proxy_with_id-Safe p url chance tr,
    receive_handshake-Safe,
    handle_coaps_scheme-Safe,
    h,
  )

  -- So has the one that the handler goes on with.
  pub local_state_security_input_layer-Safe :
      (m : CoapMessage) (sender proxy_addr : List ℕ)
      → HasPayload m
      → Safe
          (IfFound HasPayload)
          (local_state_security_input_layer p url chance tr send_blocks m sender proxy_addr)
  unfolding local_state_security_input_layer
  local_state_security_input_layer-Safe m sender proxy_addr h =
      Safe-then (IfFound HasPayload) _ _ (proxy_with_id-Safe p url chance tr proxy_addr) (λ a.
        Safe-then (IfFound HasPayload) _ _ (receive_handshake-Safe m sender a) (λ go_on.
          Safe-if (IfFound HasPayload) _ _ _ (Safe-return (IfFound HasPayload) none IfFound.missing)
            (Safe-bind HasPayload (IfFound HasPayload) _ _ (handle_coaps_scheme-Safe m sender a h)
              (λ m' q. Safe-return (IfFound HasPayload) (some m') (IfFound.found m' q)))))

-- A message with a payload that a server takes to a local state: from a state in which each stored
-- session has both ciphers, the security layer answers, hands on a message with a payload, stops or fails, never
-- panics, and leaves such a state; where the transfers of large answers do so too.
local_state_security_input_layer-Ends :
    (p : Primitives) (url : UrlParser) (chance : Chance) (tr : Endpoint)
    (send_blocks : CoapMessage → List ℕ → M p (Unit {0})) (m : CoapMessage)
    (sender proxy_addr : List ℕ) (h : Host p)
    → ((n : CoapMessage) (a : List ℕ) → is_big_payload n ≡ true → Safe Anything (send_blocks n a))
    → HasPayload m
    → IsSound h
    → Ends
        (IfFound HasPayload)
        (local_state_security_input_layer p url chance tr send_blocks m sender proxy_addr h)
local_state_security_input_layer-Ends p url chance tr send_blocks m sender proxy_addr h blocks q s =
    (local_state_security_input_layer-Safe p url chance tr send_blocks blocks m sender proxy_addr
        q).from_host
      h s
