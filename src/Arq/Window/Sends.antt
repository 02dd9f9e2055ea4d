-- ===== src/Arq/Window/Sends.antt =====
-- How often a window's packets are sent, over any sequence of sendings and acknowledgements.
use coalago.Base.{
  ℕ, ◌+◌, ◌-◌, ◌≤◌, ◌≡◌, refl, ap, sym, ◌∙◌, Bool, Option, List, [], ◌∷◌, ◌++◌, ◌==◌, ◌&&◌,
  if◌then◌else◌, length, map, take, drop, All, All-append, arith, Bool-cases, Option-cases, inl,
  inr,
}
use mathlib.Core.List.{map-append}
use mathlib.Core.Path.{subst}
use coalago.Base.Int.{ℤ}
use coalago.Constants.{Error, max_send_attempts}
use coalago.Message.{CoapMessage}
use coalago.Arq.Window.{
  Packet, Window, Sent, is_due, is_retransmit, int_suc, attempted, send_loop, send_packets, stop_of,
}
use coalago.Arq.Window.Prefix.{rejoin}

-- No packet has been tried more often than maxSendAttempts.
abbrev pub IsTried : Packet → Type 0
IsTried p = p.attempts ≤ max_send_attempts

-- How many of the messages pass a test, and the attempts of the packets whose messages do.
unfoldable pub count_messages : (CoapMessage → Bool) → List CoapMessage → ℕ
count_messages q [] = 0
count_messages q (m ∷ ms) = (if q m then 1 else 0) + count_messages q ms

unfoldable pub attempts_total : (CoapMessage → Bool) → List Packet → ℕ
attempts_total q [] = 0
attempts_total q (p ∷ ps) = (if q p.message then p.attempts else 0) + attempts_total q ps

-- The messages of the packets.
abbrev pub messages_of : List Packet → List CoapMessage
messages_of = map (λ p. p.message)

pub count_messages-append :
    (q : CoapMessage → Bool) (ms ns : List CoapMessage)
    → count_messages q (ms ++ ns) ≡ count_messages q ms + count_messages q ns
unfolding count_messages
count_messages-append q [] ns = omega arith
count_messages-append q (m ∷ ms) ns = omega (arith, count_messages-append q ms ns)

attempts_total-append :
    (q : CoapMessage → Bool) (ps qs : List Packet)
    → attempts_total q (ps ++ qs) ≡ attempts_total q ps + attempts_total q qs
unfolding attempts_total
attempts_total-append q [] qs = omega arith
attempts_total-append q (p ∷ ps) qs = omega (arith, attempts_total-append q ps qs)

-- What the loop does to the counts.
record Counts (ps : List Packet) (r : Sent) : Type 0 where
  total_ok :
      (q : CoapMessage → Bool)
      → attempts_total q r.packets ≡ attempts_total q ps + count_messages q r.messages
  tried_ok : All IsTried ps → All IsTried r.packets
  messages_ok : messages_of r.packets ≡ messages_of ps

All-split : (ps qs : List Packet) → All IsTried (ps ++ qs) → All IsTried ps × All IsTried qs
All-split [] qs h = (tt, h)
All-split (p ∷ ps) qs (h, hs) = let (a, b) = All-split ps qs hs in ((h, a), b)

messages_of-within :
    (front ps qs back : List Packet)
    → messages_of ps ≡ messages_of qs
    → messages_of (front ++ (ps ++ back)) ≡ messages_of (front ++ (qs ++ back))
messages_of-within [] ps qs back e =
    map-append _ ps back ∙ ap (λ ms. ms ++ messages_of back) e ∙ sym (map-append _ qs back)
messages_of-within (p ∷ front) ps qs back e =
    ap (λ ms. p.message ∷ ms) (messages_of-within front ps qs back e)

-- The counts of a loop over a range are those of the whole list.
Counts-within :
    (front middle back : List Packet) (r : Sent)
    → Counts middle r
    → Counts (front ++ (middle ++ back)) (record r { packets = front ++ (r.packets ++ back) })
Counts-within front middle back r c = record {
  total_ok = λ q. omega (
    arith,
    c.total_ok q,
    attempts_total-append q front (r.packets ++ back),
    attempts_total-append q r.packets back,
    attempts_total-append q front (middle ++ back),
    attempts_total-append q middle back,
  );
  tried_ok = λ h.
      let (a, bc) = All-split front (middle ++ back) h in
      let (b, d) = All-split middle back bc in
      All-append IsTried front (r.packets ++ back) a
        (All-append IsTried r.packets back (c.tried_ok b) d);
  messages_ok = messages_of-within front r.packets middle back c.messages_ok;
}

module _ (send : CoapMessage → Option Error) (to_addr : Bool) (now : ℕ) where
  send_loop-Counts :
      (ps : List Packet) (size retransmits : ℕ) (overflow : ℤ)
      → Counts ps (send_loop send to_addr now size retransmits overflow ps)
  unfolding send_loop attempted attempts_total count_messages
  send_loop-Counts [] size retransmits overflow = record {
    total_ok = λ q. refl;
    tried_ok = λ h. tt;
    messages_ok = refl;
  }
  send_loop-Counts (p ∷ ps) size retransmits overflow = elim (Bool-cases (is_due now p)) [
    | inr e ↦
        let r = send_loop-Counts ps size retransmits overflow in
        rw (e, send_loop)
          (record {
            total_ok = λ q. ground (arith, r.total_ok q);
            tried_ok = λ h. (h.0, r.tried_ok h.1);
            messages_ok = ap (λ ms. p.message ∷ ms) r.messages_ok;
          })
    | inl e ↦
        rw (e, send_loop)
          (elim (Bool-cases (p.attempts == max_send_attempts)) [
            | inl q ↦
                rw (q, send_loop)
                  (record { total_ok = λ q. omega arith; tried_ok = λ h. h; messages_ok = refl })
            | inr q ↦
                rw (q, send_loop)
                  (elim (Option-cases (send p.message)) [
                    | inl s ↦
                        let r =
                          send_loop-Counts ps size
                            (if is_retransmit to_addr size p then retransmits + 1 else retransmits)
                            (if p.attempts == 3 then int_suc overflow else overflow) in
                        rw (s, send_loop)
                          (record {
                            total_ok = λ q. ground (arith, r.total_ok q);
                            tried_ok = λ h. (ground (arith, h.0), r.tried_ok h.1);
                            messages_ok = ap (λ ms. p.message ∷ ms) r.messages_ok;
                          })
                    | inr (x, s) ↦
                        rw (s, send_loop)
                          (record {
                            total_ok = λ q. ground arith;
                            tried_ok = λ h. (ground (arith, h.0), h.1);
                            messages_ok = refl;
                          })
                  ])
          ])
  ]

  -- The same for the whole window.
  pub send_packets-Counts :
      (w : Window)
      → let r = send_packets send to_addr now w in
        ((q : CoapMessage → Bool)
          → attempts_total q r.0.packets ≡ attempts_total q w.packets + count_messages q r.1)
        × (All IsTried w.packets → All IsTried r.0.packets)
        × (messages_of r.0.packets ≡ messages_of w.packets)
        × (r.0.window_size ≡ w.window_size)
  unfolding send_packets attempts_total count_messages
  send_packets-Counts w = elim (Bool-cases (to_addr && (w.shift == length w.packets))) [
    | inl e ↦ rw (e, send_packets) (λ q. omega arith, λ h. h, refl, refl)
    | inr e ↦ rw (e, send_packets) (whole.total_ok, whole.tried_ok, whole.messages_ok, refl)
  ]
    where
      count : ℕ
      count = stop_of w - w.shift

      loop : Sent
      loop =
          send_loop send to_addr now w.window_size w.retransmits w.overflow
            (take count (drop w.shift w.packets))

      whole : Counts w.packets (record loop {
        packets = take w.shift w.packets ++ (loop.packets ++ drop count (drop w.shift w.packets));
      })
      whole =
          subst
            (λ ps. Counts ps (record loop {
              packets =
                  take w.shift w.packets ++ (loop.packets ++ drop count (drop w.shift w.packets));
            }))
            (rejoin w.shift count w.packets)
            (Counts-within (take w.shift w.packets) (take count (drop w.shift w.packets))
              (drop count (drop w.shift w.packets)) loop
              (send_loop-Counts (take count (drop w.shift w.packets)) w.window_size w.retransmits
                w.overflow))
