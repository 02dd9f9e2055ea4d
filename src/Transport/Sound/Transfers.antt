-- ===== src/Transport/Sound/Transfers.antt =====
-- transport.go: sendARQBlock2ACK is safe, and with it SendTo.
use coalago.Base.{
  ℕ, ◌≡◌, Bool, true, Option, none, some, List, [], ◌∷◌, ◌==◌, All, ltb, length, get_elem?,
  Option-cases, Bool-cases, inl, inr,
}
use coalago.Base.Int.{pos}
use coalago.Arq.Window.{Window, Outcome, acknowledge}
use coalago.Block.{Block, get_block2}
use coalago.Constants.{Error, code_continue}
use coalago.Encryption.{UrlParser}
use coalago.Message.{CoapMessage, is_big_payload}
use coalago.Session.{Primitives}
use coalago.Session.Ready.{Gives, Anything}
use coalago.Transport.{Endpoint, Chance, Host, M}
use coalago.Transport.Blocks.{
  send_each, window_or, sent_window, after_outcome, bytes_to_send, block2_answer, block2_loop,
  block_packets, send_arq_block2_ack, transport_send_to,
}
use coalago.Transport.Sound.{
  IsSound, Ends, Safe, Safe-fail, Safe-return, Safe-give, Safe-then, Safe-if,
}
use coalago.Transport.Sound.Securing.{
  send_to-Safe, drawn_messages-Safe, send_to_socket_by_address-Safe,
}

-- A message whose Block2 option, if it has one, has no negative number.
pub record IsNumbered (m : CoapMessage) : Type 0 where
  pub number_ok : (b : Block) → get_block2 m ≡ some b → (n : ℕ) × (b.number ≡ pos n)

-- What a channel gives: the timer, or a message that is numbered.
abbrev pub Comes : ℕ × Option CoapMessage → Type 0
Comes (at, none) = Unit {0}
Comes (at, some m) = IsNumbered m

data Goes : Outcome → Type 0 where
  resends : (w : Window) → Goes (Outcome.resend w)
  finishes : Goes Outcome.finish
  goes_on : (w : Window) → Goes (Outcome.wait w)

-- For a number that is not negative, sendARQBlock2ACK has no index out of range.
acknowledge-Goes : (n code : ℕ) (w : Window) → Goes (acknowledge true (pos n) code w)
unfolding acknowledge
acknowledge-Goes n code w = elim (Bool-cases (ltb (length w.packets) n)) [
  | inl e ↦ rw e (Goes.goes_on w)
  | inr e ↦ elim (Bool-cases (code == code_continue)) [
    | inr q ↦ rw (e, q) Goes.finishes
    | inl q ↦ elim (Option-cases (get_elem? w.packets n)) [
      | inl r ↦ rw (e, q, r) (Goes.goes_on _)
      | inr (p, r) ↦ rw (e, q, r) (Goes.resends _)
    ]
  ]
]

module _ {p : Primitives} (to_peer : CoapMessage → M p (Unit {0}))
    (peer : (m : CoapMessage) → Safe Anything (to_peer m)) where
  send_each-Safe : (ms : List CoapMessage) → Safe Anything (send_each to_peer ms)
  unfolding send_each
  send_each-Safe [] = Safe-return Anything tt tt
  send_each-Safe (m ∷ ms) = Safe-then Anything _ _ (peer m) (λ _. send_each-Safe ms)

  window_or-Safe : (w : Window) (o : Option Error) → Safe {p = p} Anything (window_or w o)
  unfolding window_or
  window_or-Safe w none = Safe-return Anything w tt
  window_or-Safe w (some e) = Safe-fail Anything e

  sent_window-Safe : (to_addr : Bool) (w : Window) → Safe Anything (sent_window to_addr to_peer w)
  unfolding sent_window
  sent_window-Safe to_addr w = record {
    from_host =
        λ h s. (Safe-then Anything _ _ (send_each-Safe _) (λ _. window_or-Safe _ _)).from_host h s;
  }

  after_outcome-Safe :
      {A : Type 0} (to_addr : Bool) (again : Window → M p A) (final : A) (o : Outcome)
      → ((w : Window) → Safe Anything (again w))
      → Goes o
      → Safe Anything (after_outcome (sent_window to_addr to_peer) again final o)
  unfolding after_outcome
  after_outcome-Safe to_addr again final _ k (Goes.resends w) =
      Safe-then Anything _ _ (sent_window-Safe to_addr w) k
  after_outcome-Safe to_addr again final _ k (Goes.goes_on w) = k w
  after_outcome-Safe to_addr again final _ k Goes.finishes = Safe-return Anything final tt

bytes_to_send-Gives : (m : CoapMessage) → is_big_payload m ≡ true → Gives Anything (bytes_to_send m)
unfolding bytes_to_send is_big_payload
bytes_to_send-Gives m e = elim (Option-cases m.payload) [
  | inl q ↦ cc (rw q at e)
  | inr (load, q) ↦ rw q (Gives.given _ tt)
]

module _ (p : Primitives) (url : UrlParser) (chance : Chance) (tr : Endpoint) where
  block2_answer-Safe :
      (again : Window → M p (Unit {0})) (m : CoapMessage) (addr : List ℕ) (w : Window)
      (r : CoapMessage)
      → ((v : Window) → Safe Anything (again v))
      → IsNumbered r
      → Safe Anything (block2_answer p url chance tr again m addr w r)
  unfolding block2_answer
  block2_answer-Safe again m addr w r k numbered = elim (Option-cases (get_block2 r)) [
    | inl e ↦
        rw (e, block2_answer) (Safe-if Anything _ _ _ (k w) (Safe-if Anything _ _ _ (k w) (k w)))
    | inr (b, e) ↦
        let (n, q) = numbered.number_ok b e in
        rw (e, block2_answer, q)
          (Safe-if Anything _ _ _ (k w) (
            Safe-if Anything _ _ _ (k w) (
              after_outcome-Safe _ (λ x. send_to_socket_by_address-Safe p url chance tr x addr) true
                again tt _ k (acknowledge-Goes n r.code w))))
  ]

  block2_loop-Safe :
      (input : List (ℕ × Option CoapMessage)) (m : CoapMessage) (addr : List ℕ)
      → All Comes input
      → (w : Window) → Safe Anything (block2_loop p url chance tr input m addr w)
  unfolding block2_loop
  block2_loop-Safe [] m addr _ w = record { from_host = λ h s. Ends.waits h s }
  block2_loop-Safe ((at, none) ∷ later) m addr (_, rest) w = record {
    from_host = λ h s.
        (Safe-then Anything _ _
            (sent_window-Safe _ (λ x. send_to_socket_by_address-Safe p url chance tr x addr) true w)
            (block2_loop-Safe later m addr rest)).from_host
          _ (record { ready = s.ready });
  }
  block2_loop-Safe ((at, some r) ∷ later) m addr (numbered, rest) w = record {
    from_host = λ h s.
        (block2_answer-Safe _ m addr w r (block2_loop-Safe later m addr rest) numbered).from_host _
          (record { ready = s.ready });
  }

  block_packets-Safe :
      (block_type : ℕ) (m : CoapMessage) (bytes : List ℕ)
      → Safe Anything (block_packets p url chance tr block_type m bytes)
  unfolding block_packets
  block_packets-Safe block_type m bytes = record {
    from_host = λ h s.
        (Safe-then Anything _ _ (drawn_messages-Safe _) (λ _. Safe-return Anything _ tt)).from_host
          h s;
  }

  pub send_arq_block2_ack-Safe :
      (input : List (ℕ × Option CoapMessage)) (m : CoapMessage) (addr : List ℕ)
      → All Comes input
      → is_big_payload m ≡ true
      → Safe Anything (send_arq_block2_ack p url chance tr input m addr)
  unfolding send_arq_block2_ack
  send_arq_block2_ack-Safe input m addr comes big =
      Safe-then Anything _ _ (Safe-give Anything _ (bytes_to_send-Gives m big)) (λ bytes.
        Safe-then Anything _ _ (drawn_messages-Safe 1) (λ _.
          Safe-then Anything _ _ (send_to_socket_by_address-Safe p url chance tr _ addr) (λ _.
            Safe-then Anything _ _ (block_packets-Safe _ m bytes) (λ ms.
              Safe-then Anything _ _
                (sent_window-Safe _ (λ x. send_to_socket_by_address-Safe p url chance tr x addr)
                  true _)
                (block2_loop-Safe input m addr comes)))))

-- SendTo of a transport whose stored sessions all have their ciphers, with the blocks of a large
-- payload: it does not panic, whatever the socket and the channel of the transfer give, where no
-- message of the channel has a negative block number; and the sessions stored afterwards all have
-- their ciphers.
pub transport_send_to-Ends :
    (p : Primitives) (url : UrlParser) (chance : Chance) (tr : Endpoint)
    (channel : CoapMessage → List ℕ → List (ℕ × Option CoapMessage)) (m : CoapMessage)
    (addr : List ℕ) (h : Host p)
    → ((n : CoapMessage) (a : List ℕ) → All Comes (channel n a))
    → IsSound h
    → Ends Anything (transport_send_to p url chance tr channel m addr h)
unfolding transport_send_to
transport_send_to-Ends p url chance tr channel m addr h comes s =
    (send_to-Safe p url chance tr _ m addr
        (λ n a e. send_arq_block2_ack-Safe p url chance tr _ n a (comes n a) e)).from_host
      h s
