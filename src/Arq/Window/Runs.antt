-- ===== src/Arq/Window/Runs.antt =====
-- Any sequence of sendings and acknowledgements of one transfer.
use coalago.Base.{
  ℕ, zero, suc, ◌+◌, ◌*◌, ◌%◌, ◌≤◌, ◌≡◌, refl, ap, ◌∙◌, Bool, true, Option, some, List, [], ◌∷◌,
  ◌++◌, ◌==◌, get_elem?, set, All, arith, Bool-cases, inl, inr,
}
use mathlib.Core.Path.{subst}
use coalago.Base.Int.{ℤ}
use coalago.Constants.{Error, max_send_attempts, max_window_size}
use coalago.Message.{CoapMessage}
use coalago.Arq.Window.{Packet, Window, send_packets, mark, rebalanced, Outcome, acknowledge}
use coalago.Arq.Window.Prefix.{IsShifted, acknowledge-mark, mark-IsShifted, send_packets-IsShifted}
use coalago.Arq.Window.Sends.{
  IsTried, attempts_total, count_messages, messages_of, count_messages-append, send_packets-Counts,
}

-- The windows that a transfer goes through from the window `w`, with the messages that it has tried
-- to send: sendings at any time and with any results of the sockets, acknowledgements that are
-- followed by a sending, and those that are not.
pub data Run (to_addr : Bool) (w : Window) : List CoapMessage → Window → Type 0 where
  start : Run to_addr w [] w
  sending :
      (ms : List CoapMessage) (now : ℕ) (v : Window) (send : CoapMessage → Option Error)
      → Run to_addr w ms v
      → Run to_addr w
          (ms ++ (send_packets send to_addr now v).1)
          (send_packets send to_addr now v).0
  acked :
      (ms : List CoapMessage) (v v' : Window) (num : ℤ) (code : ℕ)
      → Run to_addr w ms v
      → acknowledge to_addr num code v ≡ Outcome.resend v'
      → Run to_addr w ms v'
  waiting :
      (ms : List CoapMessage) (v : Window)
      → Run to_addr w ms v
      → Run to_addr w ms (record v { balancer = v.balancer + 1 })

-- A window that a transfer starts from: nothing has been tried.
pub record IsFresh (w : Window) : Type 0 where
  pub shifted : IsShifted w
  pub untried : All (λ p. p.attempts ≡ 0) w.packets
  pub size_ok : w.window_size ≤ max_window_size

-- What holds after the messages `ms`, for packets that carry `carried`.
pub record IsKept (carried ms : List CoapMessage) (w : Window) : Type 0 where
  pub shifted : IsShifted w
  pub total_ok : (q : CoapMessage → Bool) → attempts_total q w.packets ≡ count_messages q ms
  pub tried : All IsTried w.packets
  pub size_ok : w.window_size ≤ max_window_size
  pub messages_ok : messages_of w.packets ≡ carried

untried_total :
    (q : CoapMessage → Bool) (ps : List Packet)
    → All (λ p. p.attempts ≡ 0) ps
    → attempts_total q ps ≡ count_messages q []
unfolding attempts_total count_messages
untried_total q [] h = refl
untried_total q (p ∷ ps) (h, hs) = ground (arith, untried_total q ps hs)

untried-IsTried : (ps : List Packet) → All (λ p. p.attempts ≡ 0) ps → All IsTried ps
untried-IsTried [] h = tt
untried-IsTried (p ∷ ps) (h, hs) = (omega arith, untried-IsTried ps hs)

attempts_total-set :
    (q : CoapMessage → Bool) (ps : List Packet) (n : ℕ) (p : Packet)
    → get_elem? ps n ≡ some p
    → attempts_total q (set ps n (record p { acked = true })) ≡ attempts_total q ps
unfolding attempts_total
attempts_total-set q [] n p e = cc e
attempts_total-set q (r ∷ ps) zero p e = let same : r ≡ p = cc e in rw same refl
attempts_total-set q (r ∷ ps) (suc n) p e = omega (arith, attempts_total-set q ps n p e)

IsTried-set :
    (ps : List Packet) (n : ℕ) (p : Packet)
    → get_elem? ps n ≡ some p
    → All IsTried ps
    → All IsTried (set ps n (record p { acked = true }))
IsTried-set [] n p e h = tt
IsTried-set (q ∷ ps) zero p e (h, hs) = let same : q ≡ p = cc e in (subst IsTried same h, hs)
IsTried-set (q ∷ ps) (suc n) p e (h, hs) = (h, IsTried-set ps n p e hs)

messages_of-set :
    (ps : List Packet) (n : ℕ) (p : Packet)
    → get_elem? ps n ≡ some p
    → messages_of (set ps n (record p { acked = true })) ≡ messages_of ps
messages_of-set [] n p e = cc e
messages_of-set (r ∷ ps) zero p e = let same : r ≡ p = cc e in rw same refl
messages_of-set (r ∷ ps) (suc n) p e = ap (λ ms. r.message ∷ ms) (messages_of-set ps n p e)

rebalanced-le : (size retransmits tmp : ℕ) → rebalanced size retransmits tmp ≤ max_window_size
unfolding rebalanced
rebalanced-le size retransmits tmp = ground arith

size-mark :
    (num : ℕ) (p : Packet) (w : Window)
    → w.window_size ≤ max_window_size
    → (mark num p w).window_size ≤ max_window_size
unfolding mark
size-mark num p w h = elim (Bool-cases ((w.balancer + 1) % 25 == 0)) [
  | inl e ↦ rw e (rebalanced-le w.window_size w.retransmits w.retransmits_tmp)
  | inr e ↦ rw e h
]

mark-IsKept :
    (carried ms : List CoapMessage) (num : ℕ) (p : Packet) (w : Window)
    → get_elem? w.packets num ≡ some p
    → IsKept carried ms w
    → IsKept carried ms (mark num p w)
mark-IsKept carried ms num p w e k = record {
  shifted = mark-IsShifted num p w e k.shifted;
  total_ok = λ q. unfold mark in (attempts_total-set q w.packets num p e ∙ k.total_ok q);
  tried = unfold mark in (IsTried-set w.packets num p e k.tried);
  size_ok = size-mark num p w k.size_ok;
  messages_ok = unfold mark in (messages_of-set w.packets num p e ∙ k.messages_ok);
}

Run-IsKept :
    (to_addr : Bool) (w v : Window) (ms : List CoapMessage)
    → IsFresh w
    → Run to_addr w ms v
    → IsKept (messages_of w.packets) ms v
Run-IsKept to_addr w v ms f Run.start = record {
  shifted = f.shifted;
  total_ok = λ q. untried_total q w.packets f.untried;
  tried = untried-IsTried w.packets f.untried;
  size_ok = f.size_ok;
  messages_ok = refl;
}
Run-IsKept to_addr w v ms f (Run.sending ns now u send r) =
    let k = Run-IsKept to_addr w u ns f r in
    let (total, tried, same, size) = send_packets-Counts send to_addr now u in
    record {
      shifted = send_packets-IsShifted send to_addr now u k.shifted;
      total_ok = λ q. omega (arith, total q, k.total_ok q, count_messages-append q ns _);
      tried = tried k.tried;
      size_ok = omega (arith, size, k.size_ok);
      messages_ok = same ∙ k.messages_ok;
    }
Run-IsKept to_addr w v ms f (Run.acked ns u u' num code r e) =
    let k = Run-IsKept to_addr w u ns f r in
    let (i, p, g, same) = acknowledge-mark to_addr num code u u' e in
    subst (IsKept (messages_of w.packets) ns) same
      (mark-IsKept (messages_of w.packets) ns i p u g k)
Run-IsKept to_addr w v ms f (Run.waiting ns u r) =
    let k = Run-IsKept to_addr w u ns f r in
    record {
      shifted = k.shifted;
      total_ok = k.total_ok;
      tried = k.tried;
      size_ok = k.size_ok;
      messages_ok = k.messages_ok;
    }

tried_total :
    (q : CoapMessage → Bool) (ps : List Packet)
    → All IsTried ps
    → attempts_total q ps ≤ max_send_attempts * count_messages q (messages_of ps)
unfolding attempts_total count_messages
tried_total q [] h = omega arith
tried_total q (p ∷ ps) (h, hs) = ground (arith, tried_total q ps hs)

-- However the acknowledgements and the times fall, a transfer from a fresh window tries to send at
-- most six messages for each packet: of all the messages that it tries, those that pass a test, such
-- as being a given message, are at most six times as many as the packets whose message passes it. Its
-- shift is always the number of packets that are acknowledged from the start on, and its window size
-- stays within MAX_WINDOW_SIZE.
pub Run-bounded :
    (to_addr : Bool) (w v : Window) (ms : List CoapMessage)
    → IsFresh w
    → Run to_addr w ms v
    → ((q : CoapMessage → Bool)
        → count_messages q ms ≤ max_send_attempts * count_messages q (messages_of w.packets))
      × IsShifted v
      × (v.window_size ≤ max_window_size)
Run-bounded to_addr w v ms f r =
    let k = Run-IsKept to_addr w v ms f r in
    (
      λ q.
          subst (λ carried. count_messages q ms ≤ max_send_attempts * count_messages q carried)
            k.messages_ok (omega (arith, k.total_ok q, tried_total q v.packets k.tried)),
      k.shifted,
      k.size_ok,
    )
