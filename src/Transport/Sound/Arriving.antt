-- ===== src/Transport/Sound/Arriving.antt =====
-- message.go and transport.go: what is read from the connection has a payload, and is safe.
use coalago.Base.{
  ℕ, ◌/◌, ◌≡◌, Option, none, some, List, [], ◌∷◌, Option-cases, Bool-cases, inl, inr, length, ltb,
  leb, bytes_eq, ◌==◌, true,
}
use coalago.Checksum.{check_message, deserialize_checked, verify_checksum}
use coalago.Codec.Deserialize.{Parsed, Returned, finish_message, after_header, deserialize}
use coalago.Constants.{Error, mtu}
use coalago.Encryption.{UrlParser}
use coalago.Encryption.Ready.{HasPayload}
use coalago.Message.{CoapMessage, is_big_payload}
use coalago.Results.{Result}
use coalago.Session.{Primitives}
use coalago.Session.Ready.{Gives, Anything}
use coalago.Transport.{Reading, Endpoint, Chance, Host, M}
use coalago.Transport.Input.{
  checked_message, preparation_receiving_buffer, is_mismatch, after_datagram, receive_loop,
  receive_message,
}
use coalago.Transport.Sound.{Ends, Safe, Safe-bind, Safe-give}
use coalago.Transport.Sound.Receiving.{security_input_layer-Safe}

-- Without an error there is a payload.
record IsWhole (r : Returned) : Type 0 where
  payload_if : (m : CoapMessage) → r.error ≡ none → r.message ≡ some m → HasPayload m

finish_message-IsWhole : (m : CoapMessage) (r : Parsed) → IsWhole (finish_message m r)
unfolding finish_message
finish_message-IsWhole m (Parsed.parsed options bytes) = record {
  payload_if = λ n e q. record { payload_there = λ a. cc (a, q) };
}
finish_message-IsWhole m (Parsed.failed (some options) x) = record { payload_if = λ n e q. cc e }
finish_message-IsWhole m (Parsed.failed none x) = record { payload_if = λ n e q. cc e }
finish_message-IsWhole m Parsed.panicked = record { payload_if = λ n e q. cc q }
finish_message-IsWhole m Parsed.stuck = record { payload_if = λ n e q. cc q }

after_header-IsWhole :
    (m : CoapMessage) (size : ℕ) (body : List ℕ) → IsWhole (after_header m size body)
unfolding after_header
after_header-IsWhole m size body = elim (Bool-cases (leb size (length body))) [
  | inl e ↦ rw e (finish_message-IsWhole _ _)
  | inr e ↦ rw e (record { payload_if = λ n x q. cc q })
]

deserialize-IsWhole : (bs : List ℕ) → IsWhole (deserialize bs)
unfolding deserialize
deserialize-IsWhole (h ∷ code ∷ i ∷ j ∷ body) = elim (Bool-cases (h / 64 == 1)) [
  | inl e ↦ rw e (after_header-IsWhole _ _ _)
  | inr e ↦ rw e (record { payload_if = λ n x q. cc q })
]
deserialize-IsWhole [] = record { payload_if = λ n e q. cc e }
deserialize-IsWhole (a ∷ []) = record { payload_if = λ n e q. cc e }
deserialize-IsWhole (a ∷ b ∷ []) = record { payload_if = λ n e q. cc e }
deserialize-IsWhole (a ∷ b ∷ c ∷ []) = record { payload_if = λ n e q. cc e }

check_message-IsWhole :
    (o : Option CoapMessage) (e : Option Error)
    → IsWhole (record { message = o; error = e })
    → IsWhole (check_message o e)
unfolding check_message
check_message-IsWhole o (some x) w = record { payload_if = λ n e q. cc e }
check_message-IsWhole none none w = record { payload_if = λ n e q. cc }
check_message-IsWhole (some m) none w = elim (Option-cases (verify_checksum m)) [
  | inl e ↦ rw (e, check_message) w
  | inr (x, e) ↦ rw (e, check_message) (record { payload_if = λ n a q. cc a })
]

deserialize_checked-IsWhole : (bs : List ℕ) → IsWhole (deserialize_checked bs)
unfolding deserialize_checked
deserialize_checked-IsWhole bs = check_message-IsWhole _ _ (deserialize-IsWhole bs)

pub checked_message-Gives :
    (bs sender : List ℕ) → Gives HasPayload (checked_message (deserialize_checked bs) sender)
checked_message-Gives bs sender = checked (deserialize_checked bs) (deserialize_checked-IsWhole bs)
  where
    given_sender :
        (m : CoapMessage)
        → HasPayload m
        → Gives {A = CoapMessage} HasPayload
            (elim (verify_checksum (record m { sender = some sender })) [
              | some e ↦ Result.err Error.checksum_mismatch
              | none ↦ Result.ok (record m { sender = some sender })
            ])
    given_sender m h = elim (Option-cases (verify_checksum (record m { sender = some sender }))) [
      | inl e ↦ rw e (Gives.given _ (record { payload_there = h.payload_there }))
      | inr (x, e) ↦ rw e (Gives.refused _)
    ]

    checked : (r : Returned) → IsWhole r → Gives HasPayload (checked_message r sender)
    checked r w =
        unfold checked_message in
        elim (Option-cases r.error) [
          | inr (x, e) ↦ rw (e, checked_message) (Gives.refused x)
          | inl e ↦
              rw (e, checked_message)
                (elim (Option-cases r.message) [
                  | inl q ↦ rw (q, checked_message) (Gives.refused _)
                  | inr (m, q) ↦ rw (q, checked_message) (given_sender m (w.payload_if m e q))
                ])
        ]

module _ (p : Primitives) (url : UrlParser) (chance : Chance) (tr : Endpoint)
    (send_blocks : CoapMessage → List ℕ → M p (Unit {0}))
    (blocks : (n : CoapMessage) (a : List ℕ)
      → is_big_payload n ≡ true
      → Safe Anything (send_blocks n a)) where
  preparation_receiving_buffer-Safe :
      (bs sender proxy_addr : List ℕ)
      → Safe HasPayload
          (preparation_receiving_buffer p url chance tr send_blocks bs sender proxy_addr)
  unfolding preparation_receiving_buffer
  preparation_receiving_buffer-Safe bs sender proxy_addr =
      Safe-bind HasPayload HasPayload _ _ (Safe-give HasPayload _ (checked_message-Gives bs sender))
        (λ m h. security_input_layer-Safe p url chance tr send_blocks blocks m sender proxy_addr h)

  after_datagram-Ends :
      (orig : CoapMessage) (rest : M p CoapMessage) (r : Result CoapMessage × Host p)
      → Safe HasPayload rest
      → Ends HasPayload r
      → Ends HasPayload (after_datagram p url chance tr send_blocks orig rest r)
  unfolding after_datagram
  after_datagram-Ends orig rest _ k (Ends.done m h s q) =
      elim (Bool-cases (bytes_eq m.token orig.token)) [
        | inl e ↦ rw e (Ends.done m h s q)
        | inr e ↦ rw e (k.from_host h s)
      ]
  after_datagram-Ends orig rest _ k (Ends.failed x h s) = elim (Bool-cases (is_mismatch x)) [
    | inl e ↦ rw e (k.from_host h s)
    | inr e ↦ rw e (Ends.failed x h s)
  ]
  after_datagram-Ends orig rest _ k (Ends.waits h s) = Ends.waits h s

  receive_loop-Safe :
      (orig : CoapMessage) (later : List (ℕ × Reading))
      → Safe HasPayload (receive_loop p url chance tr send_blocks orig later)
  unfolding receive_loop
  receive_loop-Safe orig [] = record {
    from_host = λ h s. Ends.waits _ (record { ready = s.ready });
  }
  receive_loop-Safe orig ((at, Reading.deadline) ∷ later) = record {
    from_host = λ h s. Ends.failed _ _ (record { ready = s.ready });
  }
  receive_loop-Safe orig ((at, Reading.broken e) ∷ later) = record {
    from_host = λ h s. Ends.failed _ _ (record { ready = s.ready });
  }
  receive_loop-Safe orig ((at, Reading.arrived bytes) ∷ later) = record {
    from_host = λ h s. elim (Bool-cases (ltb mtu (length bytes))) [
      | inl e ↦ rw e ((receive_loop-Safe orig later).from_host _ (record { ready = s.ready }))
      | inr e ↦ rw e (
          after_datagram-Ends orig _ _ (receive_loop-Safe orig later) (
            (preparation_receiving_buffer-Safe bytes tr.remote_addr orig.proxy_addr).from_host _
              (record { ready = s.ready })))
    ];
  }

  -- A message that receiveMessage returns has a payload.
  pub receive_message-Safe :
      (orig : CoapMessage) → Safe HasPayload (receive_message p url chance tr send_blocks orig)
  unfolding receive_message
  receive_message-Safe orig = record {
    from_host = λ h s. (receive_loop-Safe orig h.incoming).from_host h s;
  }
