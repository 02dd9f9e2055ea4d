-- ===== src/Examples/Window.antt =====
-- transport.go: runs of a window of two packets.
use coalago.Base.{
  ◌⊎◌, ℕ, ◌*◌, ◌≤◌, ◌≡◌, ◌↔◌, refl, false, Bool, Option, none, List, [], ◌∷◌, ◌++◌, length, arith,
}
use coalago.Base.Int.{pos, negsuc}
use coalago.Constants.{Error, code_continue, max_send_attempts, max_window_size}
use coalago.Message.{CoapMessage, zero_message}
use coalago.Arq.Window.{
  Packet, Window, send_packets, mark, Outcome, acknowledge, acked_prefix, seven_tenths,
}
use coalago.Arq.Window.Prefix.{IsShifted, acknowledge-IsShifted, acknowledge_panics}
use coalago.Arq.Window.Sends.{count_messages, messages_of}
use coalago.Arq.Window.Runs.{Run, IsFresh, Run-bounded}

abbrev fresh_packet : Packet
fresh_packet = record { acked = false; attempts = 0; last_send = none; message = zero_message }

abbrev two_packets : Window
two_packets = record {
  packets = fresh_packet ∷ fresh_packet ∷ [];
  window_size = 2;
  shift = 0;
  relative_shift = 0;
  retransmits = 0;
  retransmits_tmp = 0;
  balancer = 0;
  overflow = pos 0;
}

abbrev sends_all : CoapMessage → Option Error
sends_all m = none

two_packets-IsFresh : IsFresh two_packets
unfolding acked_prefix
two_packets-IsFresh = record { shifted = refl; untried = (refl, (refl, tt)); size_ok = omega arith }

abbrev after_sending : Window
after_sending = (send_packets sends_all false 5 two_packets).0

abbrev first_messages : List CoapMessage
first_messages = [] ++ (send_packets sends_all false 5 two_packets).1

abbrev first_sending : Run false two_packets first_messages after_sending
first_sending = Run.sending [] 5 two_packets sends_all Run.start

Run-bounded_example :
    ((q : CoapMessage → Bool)
      → count_messages q first_messages
        ≤ max_send_attempts * count_messages q (messages_of two_packets.packets))
    × IsShifted after_sending
    × (after_sending.window_size ≤ max_window_size)
Run-bounded_example =
    Run-bounded false two_packets after_sending first_messages two_packets-IsFresh first_sending

acknowledge-IsShifted_example :
    IsShifted (mark 0 fresh_packet two_packets)
    × IsShifted (send_packets sends_all false 5 (mark 0 fresh_packet two_packets)).0
acknowledge-IsShifted_example =
    acknowledge-IsShifted sends_all false 5 (pos 0) code_continue two_packets
      (mark 0 fresh_packet two_packets) (unfold acked_prefix in refl) (unfold acknowledge in refl)

acknowledge_panics_example :
    (acknowledge false (pos 2) code_continue two_packets ≡ Outcome.panic)
    ↔ ((pos 2 ≡ pos (length two_packets.packets)) ⊎ ((n : ℕ) × (pos 2 ≡ negsuc n)))
acknowledge_panics_example = acknowledge_panics (pos 2) two_packets

-- int(float64(90) * 0.7) is 62.
rounding : seven_tenths 90 ≡ 62
unfolding seven_tenths
rounding = refl

exact : seven_tenths 20 ≡ 14
unfolding seven_tenths
exact = refl
