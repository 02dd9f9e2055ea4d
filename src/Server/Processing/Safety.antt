-- ===== src/Server/Processing/Safety.antt =====
-- localstate.go, server.go: a server does not panic on a message that it has accepted.
use coalago.Base.{
  ℕ, ◌≡◌, ◌≢◌, refl, Bool, true, false, Option, none, some, List, [], ◌==◌, All, Option-cases,
  Bool-cases, inl, inr,
}
use coalago.Base.Int.{ℤ}
use coalago.Arq.{message_id_of, raise_counter}
use coalago.Arq.Receive.{
  Chunk, Received, Selected, receive_arq_block1, receive_block, select_handler,
}
use coalago.Block.{Block, get_block1, get_block2}
use coalago.Constants.{Error, con}
use coalago.Encryption.{UrlParser}
use coalago.Encryption.Ready.{HasPayload}
use coalago.Message.{Payload, CoapMessage, is_big_payload}
use coalago.Requests.{Resources, get_method, get_resource, request_on_receive}
use coalago.Results.{Result}
use coalago.Server.{Waiting, has_waiting}
use coalago.Server.Processing.{
  LocalState, unfailing, acknowledged, selected, unless_stopped, process_message, answer_drawn,
  answer_request, respond, handled_by, serve_message,
}
use coalago.Session.{Primitives}
use coalago.Session.Ready.{Anything}
use coalago.Storage.Contents.{IfFound}
use coalago.Uri.{get_uri_path}
use coalago.Transport.{Endpoint, Chance, Host, M}
use coalago.Transport.Blocks.{block2_transfer}
use coalago.Transport.Sound.{IsSound, Ends, Safe, Safe-return, Safe-then, Safe-ignoring_error}
use coalago.Transport.Sound.Receiving.{local_state_security_input_layer-Safe}
use coalago.Transport.Sound.Securing.{
  send_to-Safe, drawn_messages-Safe, send_to_socket_by_address-Safe,
}
use coalago.Transport.Sound.Transfers.{Comes, send_arq_block2_ack-Safe}

receive_block-some :
    (o : Option Block) (confirmable : Bool) (load : Option Payload) (total : ℤ) (buf : List Chunk)
    (m : CoapMessage)
    → load ≢ none
    → (r : Received Error) × (receive_block unfailing o confirmable load total buf m ≡ some r)
unfolding receive_block
receive_block-some none confirmable load total buf m h = (_, refl)
receive_block-some (some b) false load total buf m h = (_, refl)
receive_block-some (some b) true none total buf m h = absurd (h refl)
receive_block-some (some b) true (some x) total buf m h = (_, refl)

receive_arq_block1-some :
    (total : ℤ) (buf : List Chunk) (m : CoapMessage)
    → HasPayload m
    → (r : Received Error) × (receive_arq_block1 unfailing total buf m ≡ some r)
unfolding receive_arq_block1
receive_arq_block1-some total buf m h =
    receive_block-some (get_block1 m) (m.type == con) m.payload total buf m h.payload_there

select_handler-some :
    (total : ℤ) (buf : List Chunk) (m : CoapMessage)
    → HasPayload m
    → (s : Selected) × (select_handler unfailing total buf m ≡ some s)
unfolding select_handler
select_handler-some total buf m h = elim (Option-cases (get_block1 m)) [
  | inr (b, e) ↦ elim (Bool-cases (m.type == con)) [
    | inl t ↦
        let (r, q) = receive_arq_block1-some total buf m h in rw (e, select_handler, t, q) (_, refl)
    | inr t ↦ rw (e, select_handler, t) (_, refl)
  ]
  | inl e ↦ elim (Option-cases (get_block2 m)) [
    | inr (b, q) ↦ rw (e, select_handler, q) (_, refl)
    | inl q ↦ rw (e, select_handler, q) (_, refl)
  ]
]

module _ (p : Primitives) (url : UrlParser) (chance : Chance) (tr : Endpoint)
    (send_blocks : CoapMessage → List ℕ → M p (Unit {0}))
    (blocks : (n : CoapMessage) (a : List ℕ)
      → is_big_payload n ≡ true
      → Safe Anything (send_blocks n a)) where
  acknowledged-Safe :
      (sender : List ℕ) (o : Option CoapMessage)
      → Safe Anything (acknowledged p url chance tr send_blocks sender o)
  unfolding acknowledged
  acknowledged-Safe sender none = Safe-return Anything tt tt
  acknowledged-Safe sender (some m) = Safe-ignoring_error Anything _ (
      Safe-then Anything _ _ (drawn_messages-Safe 1)
        (λ _. send_to_socket_by_address-Safe p url chance tr m sender))

  selected-Safe :
      (ls : LocalState) (m : CoapMessage) (sender : List ℕ)
      → HasPayload m
      → Safe Anything (selected p url chance tr send_blocks ls m sender)
  unfolding selected
  selected-Safe ls m sender h =
      let (s, e) = select_handler-some ls.total_blocks ls.buffer m h in
      rw (e, selected)
        (Safe-then Anything _ _ (acknowledged-Safe sender _) (λ _. Safe-return Anything _ tt))

  unless_stopped-Ends :
      (ls : LocalState) (sender : List ℕ) (r : Result (Option CoapMessage) × Host p)
      → Ends (IfFound HasPayload) r
      → Ends Anything (unless_stopped p url chance tr send_blocks ls sender r)
  unfolding unless_stopped
  unless_stopped-Ends ls sender _ (Ends.done _ h s IfFound.missing) = Ends.done _ h s tt
  unless_stopped-Ends ls sender _ (Ends.done _ h s (IfFound.found m q)) =
      (selected-Safe ls m sender q).from_host h s
  unless_stopped-Ends ls sender _ (Ends.failed e h s) = Ends.done _ h s tt
  unless_stopped-Ends ls sender _ (Ends.waits h s) = Ends.waits h s

  process_message-Safe :
      (ls : LocalState) (m : CoapMessage) (sender : List ℕ)
      → HasPayload m
      → Safe Anything (process_message p url chance tr send_blocks ls m sender)
  unfolding process_message
  process_message-Safe ls m sender q = record {
    from_host = λ h s. unless_stopped-Ends ls sender _ (
        (local_state_security_input_layer-Safe p url chance tr send_blocks blocks m sender []
            q).from_host
          h s);
  }

  answer_request-Safe :
      (resources : Resources) (m : CoapMessage) (sender : List ℕ)
      → Safe Anything (answer_request p url chance tr send_blocks resources m sender)
  unfolding answer_request
  answer_request-Safe resources m sender = record {
    from_host = λ h s.
        elim (Option-cases (
          request_on_receive (message_id_of (raise_counter h.counter)) (chance.token h.draws)
            (get_resource (get_uri_path m) (get_method m) resources) m)) [
              | inl e ↦ rw (e, answer_request) (Ends.done tt h s tt)
              | inr (r, e) ↦
                  rw (e, answer_request)
                    ((Safe-ignoring_error Anything _
                        (send_to-Safe p url chance tr send_blocks r sender blocks)).from_host
                      _ (unfold answer_drawn in record { ready = s.ready }))
            ];
  }

  respond-Safe :
      (resources : Resources) (bq : Waiting) (ls : LocalState) (m : CoapMessage) (sender : List ℕ)
      → Safe Anything (respond p url chance tr send_blocks resources bq ls m sender)
  unfolding respond
  respond-Safe resources bq ls m sender = elim (Bool-cases ls.runned_handler) [
    | inl e ↦ simp (e, respond) (Safe-return Anything _ tt)
    | inr e ↦ elim (Bool-cases (has_waiting m sender bq)) [
      | inl q ↦ simp (e, respond, q) (Safe-return Anything _ tt)
      | inr q ↦
          simp (e, respond, q)
            (Safe-then Anything _ _ (answer_request-Safe resources m sender)
              (λ _. Safe-return Anything _ tt))
    ]
  ]

  handled_by-Safe :
      (resources : Resources) (bq : Waiting) (sender : List ℕ) (r : LocalState × Selected)
      → Safe Anything (handled_by p url chance tr send_blocks resources bq sender r)
  unfolding handled_by
  handled_by-Safe resources bq sender (ls, s) = elim (Option-cases s.handled) [
    | inl e ↦ rw e (Safe-return Anything _ tt)
    | inr (m, e) ↦ rw e (respond-Safe resources bq ls m sender)
  ]

  serve_message-Safe :
      (resources : Resources) (bq : Waiting) (ls : LocalState) (m : CoapMessage) (sender : List ℕ)
      → HasPayload m
      → Safe Anything (serve_message p url chance tr send_blocks resources bq ls m sender)
  unfolding serve_message
  serve_message-Safe resources bq ls m sender q =
      Safe-then Anything _ _ (process_message-Safe ls m sender q)
        (λ r. handled_by-Safe resources bq sender r)

-- A message with a payload that a server gives to one of its local states: it is decrypted or answers
-- a handshake, is kept with the blocks before it, and runs the handler, whose answer is sent, in blocks
-- if it is large. From a transport whose stored sessions all have their ciphers none of this panics,
-- whatever the message, the local state and the resources are, and the stored sessions all have their
-- ciphers afterwards; where no channel of a transfer gives a negative block number.
pub serve_message-Ends :
    (p : Primitives) (url : UrlParser) (chance : Chance) (tr : Endpoint)
    (channel : CoapMessage → List ℕ → List (ℕ × Option CoapMessage)) (resources : Resources)
    (bq : Waiting) (ls : LocalState) (m : CoapMessage) (sender : List ℕ) (h : Host p)
    → ((n : CoapMessage) (a : List ℕ) → All Comes (channel n a))
    → HasPayload m
    → IsSound h
    → Ends Anything (
        serve_message p url chance tr
          (block2_transfer p url chance tr channel)
          resources
          bq
          ls
          m
          sender
          h)
serve_message-Ends p url chance tr channel resources bq ls m sender h comes q s =
    (serve_message-Safe p url chance tr _
        (λ n a e. send_arq_block2_ack-Safe p url chance tr _ n a (comes n a) e) resources bq ls m
        sender q).from_host
      h s
