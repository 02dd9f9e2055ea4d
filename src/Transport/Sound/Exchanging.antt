-- ===== src/Transport/Sound/Exchanging.antt =====
-- transport.go and security.go: Send is safe.
use coalago.Base.{
  refl, false, length, All, ℕ, ◌+◌, Option, none, some, List, [], Option-cases, inl, inr, ◌≡◌, true,
}
use coalago.Constants.{Error}
use coalago.Encryption.{UrlParser}
use coalago.Encryption.Ready.{HasPayload}
use coalago.Message.{CoapMessage, is_big_payload}
use coalago.Results.{Result}
use coalago.Session.{Primitives, SecuredSession}
use coalago.Session.Ready.{Gives, Anything, Started, verify-Started, new_secured_session-Gives}
use coalago.Storage.Contents.{IfFound}
use coalago.Transport.{Endpoint, Chance, Host, M, ◌>>=◌}
use coalago.Transport.Output.{get_session_for_address}
use coalago.Transport.Exchange.{
  again_after, send_con, send_unsecured, drawn_token, send_hello_from_client, kept_session,
  new_session, handshake, secured, send,
}
use coalago.Transport.Blocks.{transport_send}
use coalago.Transport.Sound.Hello.{
  peer_key_in-Gives, accepted_key-Gives, small-payload, hello_small,
}
use coalago.Transport.Sound.Transfers.{Comes, send_arq_block2_ack-Safe}
use coalago.Transport.Sound.{
  IsReadySession, IsSound, Ends, Safe, Safe-bind, Safe-give, Safe-fail, Safe-return, Safe-then,
  Safe-if,
}
use coalago.Transport.Sound.Securing.{
  fresh_message-Safe, set_proxy_id_if_need-keeps, get_session_for_address-Safe,
  set_session_for_address-Safe, preparation_sending_message-Safe, send_to_socket-Safe,
}
use coalago.Transport.Sound.Rounds.{again_after-Ends, attempt_loop-Safe}

module _ (p : Primitives) (url : UrlParser) (chance : Chance) (tr : Endpoint)
    (send_blocks : CoapMessage → List ℕ → M p (Unit {0}))
    (send_blocks1 : CoapMessage → M p CoapMessage)
    (blocks : (n : CoapMessage) (a : List ℕ)
      → is_big_payload n ≡ true
      → Safe Anything (send_blocks n a))
    (keys : (k : List ℕ) → length (p.scalar_base_mult k) ≡ 32) where
  send_con-Safe :
      (m : CoapMessage)
      → is_big_payload m ≡ false
      → Safe HasPayload (send_con p url chance tr send_blocks send_blocks1 m)
  unfolding send_con
  send_con-Safe m small = rw small (
      Safe-then HasPayload _ _ (preparation_sending_message-Safe p url chance tr m _)
        (λ bytes. attempt_loop-Safe p url chance tr send_blocks blocks _ bytes m))

  send_unsecured-Safe :
      (m : CoapMessage)
      → is_big_payload m ≡ false
      → Safe HasPayload (send_unsecured p url chance tr send_blocks send_blocks1 m)
  unfolding send_unsecured
  send_unsecured-Safe m small = record {
    from_host = λ h s.
        again_after-Ends HasPayload _ _ ((send_con-Safe m small).from_host h s)
          (send_con-Safe m small);
  }

  drawn_token-Safe : Safe Anything (drawn_token p url chance tr send_blocks send_blocks1)
  unfolding drawn_token
  drawn_token-Safe = record { from_host = λ h s. Ends.done _ _ (record { ready = s.ready }) tt }

  send_hello-Safe :
      (orig : CoapMessage) (key : List ℕ)
      → length key ≡ 32
      → Safe Anything (send_hello_from_client p url chance tr send_blocks send_blocks1 orig key)
  unfolding send_hello_from_client
  send_hello-Safe orig key size = Safe-then Anything _ _ (fresh_message-Safe chance _ _) (λ m.
      Safe-then Anything _ _ drawn_token-Safe (λ token.
        Safe-bind HasPayload Anything _ _
          (send_unsecured-Safe _ (hello_small orig key token m size))
          (λ r q.
            Safe-then Anything _ _ (Safe-give Anything _ (peer_key_in-Gives r q))
              (λ k. Safe-give Anything _ (accepted_key-Gives orig k)))))

  kept_session-Safe :
      (proxy_addr : List ℕ) (r : SecuredSession p × Option Error)
      → Started p r
      → Safe Anything (kept_session p url chance tr send_blocks send_blocks1 proxy_addr r)
  unfolding kept_session
  kept_session-Safe proxy_addr (s, some e) ready = Safe-fail Anything _
  kept_session-Safe proxy_addr (s, none) ready =
      Safe-then Anything _ _ (set_session_for_address-Safe p url chance tr s _ _ _ ready)
        (λ _. Safe-return Anything s tt)

  new_session-Safe :
      Safe
        (λ s. length s.curve.public_key ≡ 32)
        (new_session p url chance tr send_blocks send_blocks1)
  unfolding new_session
  new_session-Safe = record {
    from_host = λ h k.
        made _ h k (
          new_secured_session-Gives p (λ k. length k ≡ 32) tr.private_key (chance.key h.draws)
            keys);
  }
    where
      made :
          (r : Result (SecuredSession p)) (h : Host p)
          → IsSound h
          → Gives (λ s. length s.curve.public_key ≡ 32) r
          → Ends (λ s. length s.curve.public_key ≡ 32) (r, record h { draws = h.draws + 1 })
      made _ h k (Gives.given s q) = Ends.done s _ (record { ready = k.ready }) q
      made _ h k (Gives.refused e) = Ends.failed e _ (record { ready = k.ready })

  handshake-Safe :
      (m : CoapMessage) (proxy_addr : List ℕ)
      → Safe Anything (handshake p url chance tr send_blocks send_blocks1 m proxy_addr)
  unfolding handshake
  handshake-Safe m proxy_addr = Safe-then Anything _ _ looked_up (λ found.
      elim (Option-cases found) [
        | inr (s, e) ↦ rw e (Safe-return Anything s tt)
        | inl e ↦ rw e (
            Safe-bind (λ s. length s.curve.public_key ≡ 32) Anything _ _ new_session-Safe
              (λ s size.
                Safe-then Anything _ _ (send_hello-Safe m _ size)
                  (λ key. kept_session-Safe proxy_addr _ (verify-Started p _))))
      ])
    where
      weaker :
          (r : Result (Option (SecuredSession p)) × Host p)
          → Ends (IfFound IsReadySession) r
          → Ends Anything r
      weaker _ (Ends.done a h s q) = Ends.done a h s tt
      weaker _ (Ends.failed e h s) = Ends.failed e h s
      weaker _ (Ends.waits h s) = Ends.waits h s

      looked_up :
          Safe Anything
            (get_session_for_address p url chance tr tr.local_addr tr.remote_addr proxy_addr)
      looked_up = record {
        from_host =
            λ h s. weaker _ ((get_session_for_address-Safe p url chance tr _ _ _).from_host h s);
      }

  -- The message that is then sent has the payload of `m`.
  secured-Safe :
      (m : CoapMessage)
      → Safe (λ n. n.payload ≡ m.payload) (secured p url chance tr send_blocks send_blocks1 m)
  unfolding secured
  secured-Safe m =
      let Q : CoapMessage → Type 0 = λ n. n.payload ≡ m.payload in
      Safe-if Q _ _ _ (Safe-return Q m refl) (
        Safe-if Q _ _ _
          (Safe-bind (λ r. r.0.payload ≡ m.payload) Q _ _
            (set_proxy_id_if_need-keeps p url chance tr m _)
            (λ (m', id) q. Safe-then Q _ _ (handshake-Safe m' _) (λ _. Safe-return Q m' q)))
          (Safe-then Q _ _ (handshake-Safe m []) (λ _. Safe-return Q m refl)))

  send-Safe :
      (m : CoapMessage)
      → is_big_payload m ≡ false
      → Safe Anything (send p url chance tr send_blocks send_blocks1 m)
  unfolding send
  send-Safe m small =
      Safe-if Anything _ _ _
        (Safe-bind HasPayload Anything _ _ sending (λ r _. Safe-return Anything (some r) tt))
        (Safe-if Anything _ _ _
          (Safe-then Anything _ _ (send_to_socket-Safe p url chance tr m)
            (λ _. Safe-return Anything none tt))
          (Safe-fail Anything _))
    where
      again :
          (m' : CoapMessage)
          → is_big_payload m' ≡ false
          → Safe HasPayload (
              secured p url chance tr send_blocks send_blocks1 m'
              >>= send_con p url chance tr send_blocks send_blocks1)
      again m' q =
          Safe-bind (λ n. n.payload ≡ m'.payload) HasPayload _ _ (secured-Safe m')
            (λ n e. send_con-Safe n (small-payload m' n e q))

      sending : Safe HasPayload (
          secured p url chance tr send_blocks send_blocks1 m >>= λ m' h.
          again_after
            (secured p url chance tr send_blocks send_blocks1 m'
              >>= send_con p url chance tr send_blocks send_blocks1)
            (send_con p url chance tr send_blocks send_blocks1 m' h))
      sending =
          Safe-bind (λ n. n.payload ≡ m.payload) HasPayload _ _ (secured-Safe m)
            (λ m' e.
              let q = small-payload m m' e small in
              record {
                from_host = λ h s.
                    again_after-Ends HasPayload _ _ ((send_con-Safe m' q).from_host h s)
                      (again m' q);
              })

-- Send of a message whose payload needs no blocks, with the handshake where the scheme is coaps, on a
-- curve whose public keys have 32 bytes: whatever the connection gives and the writes answer, from a
-- state in which each stored session has both ciphers, it ends with a response, with an error or
-- waiting, never with a panic, and in such a state again; where no channel of a transfer gives a
-- negative block number.
pub transport_send-Ends :
    (p : Primitives) (url : UrlParser) (chance : Chance) (tr : Endpoint)
    (channel : CoapMessage → List ℕ → List (ℕ × Option CoapMessage)) (m : CoapMessage) (h : Host p)
    → ((k : List ℕ) → length (p.scalar_base_mult k) ≡ 32)
    → ((n : CoapMessage) (a : List ℕ) → All Comes (channel n a))
    → is_big_payload m ≡ false
    → IsSound h
    → Ends Anything (transport_send p url chance tr channel m h)
unfolding transport_send
transport_send-Ends p url chance tr channel m h keys comes small s =
    (send-Safe p url chance tr _ _
        (λ n a e. send_arq_block2_ack-Safe p url chance tr _ n a (comes n a) e) keys m
        small).from_host
      h s
