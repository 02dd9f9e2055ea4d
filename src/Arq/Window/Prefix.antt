-- ===== src/Arq/Window/Prefix.antt =====
-- The shift of a window: it stands behind the packets from the start that are acknowledged.
use coalago.Base.{
  ◌⊎◌, ℕ, zero, suc, ◌+◌, ◌-◌, ◌≤◌, ◌<◌, ◌≡◌, refl, sym, ap, ◌∙◌, Bool, true, false, Option, none,
  some, List, [], ◌∷◌, ◌++◌, ltb, ◌==◌, if◌then◌else◌, length, take, drop, get_elem?, set, map,
  arith, Bool-cases, Option-cases, inl, inr, take-append-drop, ◌&&◌, ◌↔◌,
}
use mathlib.Core.Path.{subst}
use coalago.Base.Int.{ℤ, pos, negsuc}
use coalago.Constants.{Error, code_continue, max_send_attempts}
use coalago.Message.{CoapMessage}
use coalago.Arq.Window.{
  Packet, Window, is_due, attempted, send_loop, send_packets, stop_of, acked_prefix, mark, Outcome,
  acknowledge,
}

-- The shift is the number of packets from the start that are acknowledged.
abbrev pub IsShifted : Window → Type 0
IsShifted w = w.shift ≡ acked_prefix w.packets

acked : Packet → Packet
acked p = record p { acked = true }

acked_prefix-set :
    (ps : List Packet) (num : ℕ) (p : Packet)
    → get_elem? ps num ≡ some p
    → acked_prefix (set ps num (acked p)) ≡ (
        if num == acked_prefix ps
        then acked_prefix ps + 1 + acked_prefix (drop (acked_prefix ps + 1) (set ps num (acked p)))
        else acked_prefix ps)
unfolding acked_prefix acked
acked_prefix-set [] num p e = cc e
acked_prefix-set (q ∷ ps) zero p e = elim (Bool-cases q.acked) [
  | inl a ↦ let no : (0 == suc (acked_prefix ps)) ≡ false = ground arith in rw a (rw no refl)
  | inr a ↦ rw a (omega arith)
]
acked_prefix-set (q ∷ ps) (suc num) p e = elim (Bool-cases q.acked) [
  | inl a ↦
      let prefix = acked_prefix ps in
      let moved : suc prefix + 1 ≡ suc (prefix + 1) = omega arith in
      let ih = acked_prefix-set ps num p e in
      elim (Bool-cases (num == prefix)) [
        | inl same ↦
            let same' : (suc num == suc prefix) ≡ true = ground arith in
            let ih' : acked_prefix (set ps num (acked p))
                ≡ prefix + 1 + acked_prefix (drop (prefix + 1) (set ps num (acked p))) =
              ih ∙ rw same refl in
            rw a (rw (same', moved) (omega (arith, ih')))
        | inr other ↦
            let other' : (suc num == suc prefix) ≡ false = ground arith in
            rw a (rw other' (ap suc (ih ∙ rw other refl)))
      ]
  | inr a ↦ let no : (suc num == 0) ≡ false = ground arith in rw a (rw no refl)
]

-- An acknowledgement moves the shift over all the packets that are acknowledged from there on.
pub mark-IsShifted :
    (num : ℕ) (p : Packet) (w : Window)
    → get_elem? w.packets num ≡ some p
    → IsShifted w
    → IsShifted (mark num p w)
unfolding mark acked
mark-IsShifted num p w e h = rw h (sym (acked_prefix-set w.packets num p e))

-- The flags decide.
trues : List Bool → ℕ
trues [] = 0
trues (b ∷ bs) = let rest = trues bs in if b then suc rest else 0

flags : List Packet → List Bool
flags ps = map (λ p. p.acked) ps

acked_prefix-trues : (ps : List Packet) → acked_prefix ps ≡ trues (flags ps)
unfolding acked_prefix trues flags
acked_prefix-trues [] = refl
acked_prefix-trues (p ∷ ps) = ap (λ n. if p.acked then suc n else 0) (acked_prefix-trues ps)

flags-append : (ps qs : List Packet) → flags (ps ++ qs) ≡ flags ps ++ flags qs
unfolding flags
flags-append [] qs = refl
flags-append (p ∷ ps) qs = ap (◌∷◌ p.acked) (flags-append ps qs)

-- A list put together from its parts before, in and behind a range.
pub rejoin :
    (s k : ℕ) (ps : List Packet) → take s ps ++ (take k (drop s ps) ++ drop k (drop s ps)) ≡ ps
rejoin s k ps = rw (take-append-drop k (drop s ps)) (take-append-drop s ps)

module _ (send : CoapMessage → Option Error) (to_addr : Bool) (now : ℕ) where
  flags-send_loop :
      (ps : List Packet) (size retransmits : ℕ) (overflow : ℤ)
      → flags (send_loop send to_addr now size retransmits overflow ps).packets ≡ flags ps
  unfolding flags send_loop attempted
  flags-send_loop [] size retransmits overflow = refl
  flags-send_loop (p ∷ ps) size retransmits overflow = elim (Bool-cases (is_due now p)) [
    | inr e ↦ rw (e, send_loop) (ap (◌∷◌ p.acked) (flags-send_loop ps size retransmits overflow))
    | inl e ↦
        rw (e, send_loop)
          (elim (Bool-cases (p.attempts == max_send_attempts)) [
            | inl q ↦ rw (q, send_loop) refl
            | inr q ↦
                rw (q, send_loop)
                  (elim (Option-cases (send p.message)) [
                    | inl s ↦ rw (s, send_loop) (ap (◌∷◌ p.acked) (flags-send_loop ps size _ _))
                    | inr (x, s) ↦ rw (s, send_loop) refl
                  ])
          ])
  ]

  -- Sending changes no flag, and not the shift.
  flags-send_packets :
      (w : Window) → flags (send_packets send to_addr now w).0.packets ≡ flags w.packets
  unfolding send_packets
  flags-send_packets w = elim (Bool-cases (to_addr && (w.shift == length w.packets))) [
    | inl e ↦ rw (e, send_packets) refl
    | inr e ↦
        rw (e, send_packets)
          (flags-append front (sent ++ back)
            ∙ ap (λ x. flags front ++ x)
                (flags-append sent back
                  ∙ ap (λ x. x ++ flags back)
                      (flags-send_loop middle w.window_size w.retransmits w.overflow)
                  ∙ sym (flags-append middle back))
            ∙ sym (flags-append front (middle ++ back))
            ∙ ap flags (rejoin w.shift (stop_of w - w.shift) w.packets))
  ]
    where
      front : List Packet
      front = take w.shift w.packets

      middle : List Packet
      middle = take (stop_of w - w.shift) (drop w.shift w.packets)

      back : List Packet
      back = drop (stop_of w - w.shift) (drop w.shift w.packets)

      sent : List Packet
      sent = (send_loop send to_addr now w.window_size w.retransmits w.overflow middle).packets

  shift-send_packets : (w : Window) → (send_packets send to_addr now w).0.shift ≡ w.shift
  unfolding send_packets
  shift-send_packets w = elim (Bool-cases (to_addr && (w.shift == length w.packets))) [
    | inl e ↦ rw (e, send_packets) refl
    | inr e ↦ rw (e, send_packets) refl
  ]

  pub send_packets-IsShifted :
      (w : Window) → IsShifted w → IsShifted (send_packets send to_addr now w).0
  send_packets-IsShifted w h =
      shift-send_packets w
      ∙ h
      ∙ acked_prefix-trues w.packets
      ∙ ap trues (sym (flags-send_packets w))
      ∙ sym (acked_prefix-trues _)

-- What a window to send again comes from.
pub acknowledge-mark :
    (to_addr : Bool) (num : ℤ) (code : ℕ) (w w' : Window)
    → acknowledge to_addr num code w ≡ Outcome.resend w'
    → (n : ℕ) × (p : Packet) × (get_elem? w.packets n ≡ some p) × (mark n p w ≡ w')
unfolding acknowledge
acknowledge-mark to_addr (negsuc n) code w w' e = elim (Bool-cases (code == code_continue)) [
  | inl c ↦ absurd (let e' = rw (c, acknowledge) at e in cc e')
  | inr c ↦ absurd (let e' = rw (c, acknowledge) at e in cc e')
]
acknowledge-mark to_addr (pos n) code w w' e = elim (Bool-cases (ltb (length w.packets) n)) [
  | inl past ↦ absurd (let e' = rw (past, acknowledge) at e in cc e')
  | inr within ↦ elim (Bool-cases (code == code_continue)) [
    | inr c ↦ absurd (let e' = rw (within, c, acknowledge) at e in cc e')
    | inl c ↦ elim (Option-cases (get_elem? w.packets n)) [
      | inl g ↦ absurd (elim (Bool-cases to_addr) [
        | inl t ↦ (let e' = rw (within, c, g, t, acknowledge) at e in cc e')
        | inr t ↦ (let e' = rw (within, c, g, t, acknowledge) at e in cc e')
      ])
      | inr (p, g) ↦ (n, p, g, (let e' = rw (within, c, g, acknowledge) at e in cc e'))
    ]
  ]
]

-- Where the shift is the number of the packets acknowledged from the start on, it still is after an
-- acknowledgement that goes on with sending, and after that sending.
pub acknowledge-IsShifted :
    (send : CoapMessage → Option Error) (to_addr : Bool) (now : ℕ) (num : ℤ) (code : ℕ)
    (w w' : Window)
    → IsShifted w
    → acknowledge to_addr num code w ≡ Outcome.resend w'
    → IsShifted w' × IsShifted (send_packets send to_addr now w').0
acknowledge-IsShifted send to_addr now num code w w' h e =
    let (n, p, g, same) = acknowledge-mark to_addr num code w w' e in
    let h' = subst IsShifted same (mark-IsShifted n p w g h) in
    (h', send_packets-IsShifted send to_addr now w' h')

get_elem?-past : (ps : List Packet) (n : ℕ) → length ps ≤ n → get_elem? ps n ≡ none
get_elem?-past [] n h = refl
get_elem?-past (p ∷ ps) zero h = absurd (omega arith)
get_elem?-past (p ∷ ps) (suc n) h = get_elem?-past ps n (omega arith)

pub get_elem?-lt : (ps : List Packet) (n : ℕ) (p : Packet) → get_elem? ps n ≡ some p → n < length ps
get_elem?-lt [] n p e = cc e
get_elem?-lt (q ∷ ps) zero p e = omega arith
get_elem?-lt (q ∷ ps) (suc n) p e = omega (arith, get_elem?-lt ps n p e)

get_elem?-within : (ps : List Packet) (n : ℕ) → get_elem? ps n ≡ none → length ps ≤ n
get_elem?-within [] n e = omega arith
get_elem?-within (q ∷ ps) zero e = cc e
get_elem?-within (q ∷ ps) (suc n) e = omega (arith, get_elem?-within ps n e)

-- A block number that is not negative.
acknowledge_past :
    (num : ℕ) (w : Window)
    → (acknowledge false (pos num) code_continue w ≡ Outcome.panic) ↔ (num ≡ length w.packets)
unfolding acknowledge
acknowledge_past num w = (forth, back)
  where
    forth : acknowledge false (pos num) code_continue w ≡ Outcome.panic → num ≡ length w.packets
    forth e = elim (Bool-cases (ltb (length w.packets) num)) [
      | inl past ↦ absurd (let e' = rw (past, acknowledge) at e in cc e')
      | inr within ↦ elim (Option-cases (get_elem? w.packets num)) [
        | inl g ↦
            let least = get_elem?-within w.packets num g in
            let most : num ≤ length w.packets = ground arith in omega arith
        | inr (p, g) ↦ absurd (let e' = rw (within, g, acknowledge) at e in cc e')
      ]
    ]

    back : num ≡ length w.packets → acknowledge false (pos num) code_continue w ≡ Outcome.panic
    back e =
        let within : ltb (length w.packets) num ≡ false = ground arith in
        rw (within, get_elem?-past w.packets num (omega arith), acknowledge) refl

-- The index out of range: in sendARQBlock1CON an acknowledgement with CoapCodeContinue panics exactly
-- if its block number is the number of packets or is negative.
pub acknowledge_panics :
    (num : ℤ) (w : Window)
    → (acknowledge false num code_continue w ≡ Outcome.panic)
      ↔ ((num ≡ pos (length w.packets)) ⊎ ((n : ℕ) × (num ≡ negsuc n)))
acknowledge_panics (pos num) w = (forth, back)
  where
    forth :
        acknowledge false (pos num) code_continue w ≡ Outcome.panic
        → (pos num ≡ pos (length w.packets)) ⊎ ((n : ℕ) × (pos num ≡ negsuc n))
    forth e = inl (ap pos ((acknowledge_past num w).0 e))

    back :
        (pos num ≡ pos (length w.packets)) ⊎ ((n : ℕ) × (pos num ≡ negsuc n))
        → acknowledge false (pos num) code_continue w ≡ Outcome.panic
    back (inl e) = (acknowledge_past num w).1 (cc e)
    back (inr (n, e)) = cc e
acknowledge_panics (negsuc n) w = (λ e. inr (n, refl), λ c. unfold acknowledge in refl)
