-- ===== src/Arq/Window.antt =====
-- transport.go: the window of packets that a sender of blocks keeps, in sendARQBlock1CON and
-- sendARQBlock2ACK.
pub mod Prefix
pub mod Sends
pub mod Runs
use coalago.Base.{
  ℕ, zero, suc, ◌+◌, ◌-◌, ◌*◌, ◌/◌, ◌%◌, ◌^◌, Bool, true, false, Option, none, some, List, [], ◌∷◌,
  ◌++◌, ◌&&◌, ◌||◌, ltb, leb, ◌==◌, not, if◌then◌else◌, length, take, drop, get_elem?, set,
}
use coalago.Base.Int.{ℤ, pos, negsuc}
use coalago.Constants.{Error, code_continue, max_send_attempts, min_window_size, max_window_size}
use coalago.Message.{CoapMessage, time_wait}

-- packet; the zero time is none.
pub record Packet : Type 0 where
  pub acked : Bool
  pub attempts : ℕ
  pub last_send : Option ℕ
  pub message : CoapMessage

-- The variables of sendARQBlock1CON and sendARQBlock2ACK.
pub record Window : Type 0 where
  pub packets : List Packet
  pub window_size : ℕ
  pub shift : ℕ
  pub relative_shift : ℕ
  pub retransmits : ℕ
  pub retransmits_tmp : ℕ
  pub balancer : ℕ
  pub overflow : ℤ

-- n + 1, n - 1 and n > 0
unfoldable pub int_suc : ℤ → ℤ
int_suc (pos n) = pos (n + 1)
int_suc (negsuc zero) = pos 0
int_suc (negsuc (suc n)) = negsuc n

unfoldable pub int_pred : ℤ → ℤ
int_pred (pos zero) = negsuc 0
int_pred (pos (suc n)) = pos n
int_pred (negsuc n) = negsuc (suc n)

unfoldable pub is_positive : ℤ → Bool
is_positive (pos n) = ltb 0 n
is_positive (negsuc n) = false

-- time.Since(lastSend) >= timeWait; since the zero time, it is the longest duration.
unfoldable pub is_due : ℕ → Packet → Bool
is_due now p = not p.acked && (elim p.last_send [ none ↦ true | some t ↦ leb (t + time_wait) now ])

-- Whether sendPackets, or for `to_addr` sendPacketsToAddr, counts a retransmission.
unfoldable pub is_retransmit : Bool → ℕ → Packet → Bool
is_retransmit false window_size p = ltb 0 p.attempts && leb min_window_size window_size
is_retransmit true window_size p = ltb 0 p.attempts && ltb min_window_size window_size

-- What the loop over the packets leaves, and the messages that it tried to send.
pub record Sent : Type 0 where
  pub packets : List Packet
  pub retransmits : ℕ
  pub overflow : ℤ
  pub messages : List CoapMessage
  pub failure : Option Error

-- The packet after one more attempt.
unfoldable pub attempted : ℕ → Packet → Packet
attempted now p = record p { attempts = p.attempts + 1; last_send = some now }

module _ (send : CoapMessage → Option Error) (to_addr : Bool) (now window_size : ℕ) where
  -- The loops of sendPackets and sendPacketsToAddr.
  unfoldable pub send_loop : ℕ → ℤ → List Packet → Sent
  send_loop retransmits overflow [] = record {
    packets = [];
    retransmits = retransmits;
    overflow = overflow;
    messages = [];
    failure = none;
  }
  send_loop retransmits overflow (p ∷ ps) = elim (is_due now p) [
    | false ↦ let r = send_loop retransmits overflow ps in record r { packets = p ∷ r.packets }
    | true ↦
        let retransmits' =
          if is_retransmit to_addr window_size p then retransmits + 1 else retransmits in
        elim (p.attempts == max_send_attempts) [
          | true ↦ record {
            packets = p ∷ ps;
            retransmits = if to_addr then retransmits else retransmits';
            overflow = overflow;
            messages = [];
            failure = some Error.max_attempts;
          }
          | false ↦
              let overflow' = if p.attempts == 3 then int_suc overflow else overflow in
              elim (send p.message) [
                | some e ↦ record {
                  packets = attempted now p ∷ ps;
                  retransmits = retransmits';
                  overflow = overflow';
                  messages = p.message ∷ [];
                  failure = some e;
                }
                | none ↦
                    let r = send_loop retransmits' overflow' ps in
                    record r {
                      packets = attempted now p ∷ r.packets;
                      messages = p.message ∷ r.messages;
                    }
              ]
        ]
  ]

-- The end of the range that is sent.
unfoldable pub stop_of : Window → ℕ
stop_of w =
    let stop = w.window_size + (if is_positive w.overflow then w.shift else w.relative_shift) in
    if leb (length w.packets) stop then length w.packets else stop

-- sendPackets, and sendPacketsToAddr for `to_addr`.
unfoldable pub send_packets :
    (CoapMessage → Option Error) → Bool → ℕ → Window → Window × List CoapMessage × Option Error
send_packets send to_addr now w =
    if to_addr && (w.shift == length w.packets)
    then (w, [], some Error.max_attempts)
    else (let rest = drop w.shift w.packets in
        let count = stop_of w - w.shift in
        let r =
          send_loop send to_addr now w.window_size w.retransmits w.overflow (take count rest) in
        (
          record w {
            packets = take w.shift w.packets ++ (r.packets ++ drop count rest);
            retransmits = r.retransmits;
            overflow = r.overflow;
          },
          r.messages,
          r.failure,
        ))

-- The position of the highest bit of n, for 1 ≤ n < 2 ^ fuel.
top_bit : ℕ → ℕ → ℕ
top_bit zero n = 0
top_bit (suc fuel) n = let rest = top_bit fuel (n / 2) in if leb n 1 then 0 else suc rest

-- n / 2 ^ k, rounded to the nearest, and to even between two.
round_half_even : ℕ → ℕ → ℕ
round_half_even n k =
    let q = n / 2 ^ k in
    let r = n % 2 ^ k in
    if ltb (2 ^ k) (r * 2) || ((r * 2 == 2 ^ k) && (q % 2 == 1)) then q + 1 else q

-- int(float64(n) * 0.7) for n < 2 ^ 53: the float64 nearest to 0.7 is 6305039478318694 / 2 ^ 53, and
-- the product is rounded to 53 bits.
unfoldable pub seven_tenths : ℕ → ℕ
unfolding top_bit round_half_even
seven_tenths n =
    let product = n * 6305039478318694 in
    let excess = top_bit 106 product - 52 in round_half_even product excess * 2 ^ excess / 2 ^ 53

-- The window size after every 25th acknowledgement. Below zero the difference is cut off to zero,
-- which the lower bound hides.
unfoldable pub rebalanced : ℕ → ℕ → ℕ → ℕ
rebalanced window_size retransmits tmp =
    let size =
      if leb retransmits (2 + tmp)
      then window_size + seven_tenths (2 + tmp - retransmits)
      else window_size - seven_tenths (retransmits - (2 + tmp)) in
    let size' = if ltb size min_window_size then min_window_size else size in
    if ltb max_window_size size' then max_window_size else size'

-- How many packets from the start are acknowledged.
unfoldable pub acked_prefix : List Packet → ℕ
acked_prefix [] = 0
acked_prefix (p ∷ ps) = let rest = acked_prefix ps in if p.acked then suc rest else 0

-- The window after the acknowledgement of the packet `p` with the number `num`.
unfoldable pub mark : ℕ → Packet → Window → Window
mark num p w =
    let packets = set w.packets num (record p { acked = true }) in
    let balancer = w.balancer + 1 in
    let rebalances = balancer % 25 == 0 in
    record {
      packets = packets;
      window_size =
          if rebalances
          then rebalanced w.window_size w.retransmits w.retransmits_tmp
          else w.window_size;
      shift =
          if num == w.shift
          then w.shift + 1 + acked_prefix (drop (w.shift + 1) packets)
          else w.shift;
      relative_shift = w.relative_shift + 1;
      retransmits = w.retransmits;
      retransmits_tmp = if rebalances then w.retransmits else w.retransmits_tmp;
      balancer = balancer;
      overflow = if not p.acked && ltb 3 p.attempts then int_pred w.overflow else w.overflow;
    }

-- What an acknowledgement leads to: sendPackets with a new window, the end of the transfer, an index
-- out of range, or no sending.
pub data Outcome : Type 0 where
  resend : Window → Outcome
  finish : Outcome
  panic : Outcome
  wait : Window → Outcome

-- The branch of sendARQBlock1CON, or for `to_addr` of sendARQBlock2ACK, for a response with the code
-- `code` and a block with the number `num`; the second tests the number again.
unfoldable pub acknowledge : Bool → ℤ → ℕ → Window → Outcome
acknowledge to_addr (negsuc n) code w =
    if code == code_continue then Outcome.panic else Outcome.finish
acknowledge to_addr (pos num) code w =
    if ltb (length w.packets) num
    then Outcome.wait w
    else if not (code == code_continue)
    then Outcome.finish
    else elim (get_elem? w.packets num) [
      | none ↦
          if to_addr then Outcome.wait (record w { balancer = w.balancer + 1 }) else Outcome.panic
      | some p ↦ Outcome.resend (mark num p w)
    ]
