-- ===== src/Transport/Blocks.antt =====
-- transport.go: sendARQBlock1CON and sendARQBlock2ACK, which send a large payload block by block, and
-- Send and SendTo with them.
use coalago.Base.{
  ℕ, zero, suc, Bool, true, false, Option, none, some, List, [], ◌∷◌, ◌==◌, not, length, map,
  if◌then◌else◌, bytes_eq,
}
use coalago.Base.Int.{pos}
use coalago.Arq.{new_send_state, packets, new_ack_empty_message}
use coalago.Arq.Window.{Packet, Window, Outcome, send_packets, acknowledge}
use coalago.Block.{get_block1, get_block2}
use coalago.Constants.{Error, ack, code_empty, option_block1, option_block2}
use coalago.Encryption.{UrlParser}
use coalago.Message.{CoapMessage, payload_bytes}
use coalago.Results.{Result}
use coalago.Session.{Primitives}
use coalago.Transport.{Endpoint, Chance, M, ◌>>=◌, give, return, fail, drawn_messages}
use coalago.Transport.Exchange.{unless_timeout, download_after, send}
use coalago.Transport.Input.{receive_message}
use coalago.Transport.Output.{send_to_socket, send_to_socket_by_address, send_to}

-- A packet that was not sent yet.
unfoldable pub new_packet : CoapMessage → Packet
new_packet m = record { acked = false; attempts = 0; last_send = none; message = m }

-- The variables before the first sendPackets.
unfoldable pub new_window : ℕ → List CoapMessage → Window
new_window size ms = record {
  packets = map new_packet ms;
  window_size = size;
  shift = 0;
  relative_shift = 0;
  retransmits = 0;
  retransmits_tmp = 0;
  balancer = 0;
  overflow = pos 0;
}

-- The payload's bytes, where a nil payload is a panic.
unfoldable pub bytes_to_send : CoapMessage → Result (List ℕ)
bytes_to_send m = elim m.payload [
  | none ↦ Result.panic
  | some load ↦ Result.ok (payload_bytes load)
]

-- The sends that a loop over the packets makes, in its order; an error ends it.
unfoldable pub send_each :
    {p : Primitives} → (CoapMessage → M p (Unit {0})) → List CoapMessage → M p (Unit {0})
send_each to_peer [] = return tt
send_each to_peer (m ∷ ms) = to_peer m >>= λ _. send_each to_peer ms

-- The end of sendPackets, after all that it sends.
unfoldable pub window_or : {p : Primitives} → Window → Option Error → M p Window
window_or w none = return w
window_or w (some e) = fail e

-- sendPackets, or for `to_addr` sendPacketsToAddr, with `to_peer` for its writes: the messages that
-- are due, and the window after them, which nothing reads once a write has failed.
unfoldable pub sent_window :
    {p : Primitives} → Bool → (CoapMessage → M p (Unit {0})) → Window → M p Window
sent_window to_addr to_peer w h =
    let (w', ms, failure) = send_packets (λ m. none) to_addr h.now w in
    (send_each to_peer ms >>= λ _. window_or w' failure) h

-- What follows an acknowledgement; `again` is the loop.
unfoldable pub after_outcome :
    {p : Primitives} {A : Type 0} → (Window → M p Window) → (Window → M p A) → A → Outcome → M p A
after_outcome resend again final (Outcome.resend w) = resend w >>= again
after_outcome resend again final (Outcome.wait w) = again w
after_outcome resend again final Outcome.finish = return final
after_outcome resend again final Outcome.panic = give Result.panic

module _ (p : Primitives) (url : UrlParser) (chance : Chance) (tr : Endpoint) where
  -- The loop of sendARQBlock2ACK over what its channel gives, each with its time, where `none` is the
  -- timer.
  unfoldable pub block2_answer :
      (Window → M p (Unit {0})) → CoapMessage → List ℕ → Window → CoapMessage → M p (Unit {0})
  block2_answer again m addr w r =
      if not (bytes_eq r.token m.token)
      then again w
      else if not (r.type == ack)
      then again w
      else elim (get_block2 r) [
        | none ↦ again w
        | some b ↦
            after_outcome (sent_window true (λ n. send_to_socket_by_address p url chance tr n addr))
              again tt (acknowledge true b.number r.code w)
      ]

  unfoldable pub block2_loop :
      List (ℕ × Option CoapMessage) → CoapMessage → List ℕ → Window → M p (Unit {0})
  block2_loop [] m addr w h = (Result.blocked, h)
  block2_loop ((at, none) ∷ later) m addr w h =
      (sent_window true (λ n. send_to_socket_by_address p url chance tr n addr) w
          >>= block2_loop later m addr)
        (record h { now = at })
  block2_loop ((at, some r) ∷ later) m addr w h =
      block2_answer (block2_loop later m addr) m addr w r (record h { now = at })

  -- The packets of a payload, with the ids and tokens that they draw.
  unfoldable pub block_packets : ℕ → CoapMessage → List ℕ → M p (List CoapMessage)
  block_packets block_type m bytes h =
      let ms = packets h.counter block_type m bytes in
      (drawn_messages (length ms) >>= λ _. return ms) h

  -- sendARQBlock2ACK
  unfoldable pub send_arq_block2_ack :
      List (ℕ × Option CoapMessage) → CoapMessage → List ℕ → M p (Unit {0})
  send_arq_block2_ack input m addr = give (bytes_to_send m) >>= λ bytes.
      let size = (new_send_state m bytes).window_size in
      drawn_messages 1 >>= λ _.
      send_to_socket_by_address p url chance tr (new_ack_empty_message m size) addr >>= λ _.
      block_packets option_block2 m bytes >>= λ ms.
      sent_window true (λ n. send_to_socket_by_address p url chance tr n addr) (new_window size ms)
      >>= block2_loop input m addr

  -- `channel` gives the channel of each transfer.
  module _ (channel : CoapMessage → List ℕ → List (ℕ × Option CoapMessage)) where
    abbrev pub block2_transfer : CoapMessage → List ℕ → M p (Unit {0})
    block2_transfer m addr = send_arq_block2_ack (channel m addr) m addr

    -- What the loop of sendARQBlock1CON does with a response.
    unfoldable pub block1_response :
        (Window → M p CoapMessage) → CoapMessage → Window → CoapMessage → M p CoapMessage
    block1_response again m w r =
        if not (r.type == ack)
        then again w
        else if r.code == code_empty
        then download_after p url chance tr block2_transfer m none
        else elim (get_block2 r) [
          | some b ↦ download_after p url chance tr block2_transfer m (some r)
          | none ↦ elim (get_block1 r) [
            | none ↦ again w
            | some b ↦
                after_outcome (sent_window false (send_to_socket p url chance tr)) again r
                  (acknowledge false b.number r.code w)
          ]
        ]

    -- The loop, for at most `fuel` messages or timeouts.
    unfoldable pub block1_loop : ℕ → CoapMessage → Window → M p CoapMessage
    block1_loop zero m w h = (Result.blocked, h)
    block1_loop (suc fuel) m w h =
        unless_timeout (sent_window false (send_to_socket p url chance tr) w >>= block1_loop fuel m)
          (block1_response (block1_loop fuel m) m w)
          (receive_message p url chance tr block2_transfer m h)

    -- One round more than there are readings, of which each round takes one.
    unfoldable pub block1_rounds : CoapMessage → Window → M p CoapMessage
    block1_rounds m w h = block1_loop (suc (length h.incoming)) m w h

    -- sendARQBlock1CON
    unfoldable pub send_arq_block1_con : CoapMessage → M p CoapMessage
    send_arq_block1_con m = give (bytes_to_send m) >>= λ bytes.
        block_packets option_block1 m bytes >>= λ ms.
        sent_window false (send_to_socket p url chance tr)
          (new_window (new_send_state m bytes).window_size ms)
        >>= block1_rounds m

    -- Send and SendTo of the transport
    unfoldable pub transport_send : CoapMessage → M p (Option CoapMessage)
    transport_send m = send p url chance tr block2_transfer send_arq_block1_con m

    unfoldable pub transport_send_to : CoapMessage → List ℕ → M p (Unit {0})
    transport_send_to m addr = send_to p url chance tr block2_transfer m addr
