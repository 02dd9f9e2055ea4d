-- ===== src/Examples/Transport.antt =====
-- connections_tcp.go, common.go, localstate.go: runs on small streams and payloads.
use coalago.Base.{
  ℕ, zero, suc, ◌≡◌, refl, true, false, Option, none, some, List, [], ◌∷◌, ◌++◌, length, get_elem?,
  ◌⊎◌, arith,
}
use coalago.Constants.{Error, option_block1, option_block2}
use coalago.Message.{Payload, CoapMessage, zero_message}
use coalago.Wire.Frame.{
  done, failed, IoError, Writer, encode_length, read_tcp_frame, write_tcp_frame,
}
use coalago.Wire.Frame.RoundTrip.{
  frame, wrote, stream_length, ReadsAs, write_frames, write_frames-ReadsAs, read_tcp_frame-frame,
  write_tcp_frame_lem,
}
use coalago.Wire.Frame.Truncated.{read_tcp_frame_truncated}
use coalago.Arq.{packets, construct_blocks, construct_next_block, new_send_state}
use coalago.Arq.Blocks.{block2-IsBlockType}
use coalago.Arq.Split.{frames, Sends, packets-Sends}
use coalago.Arq.Receive.{Selected, select_handler, Received, no_total}
use coalago.Arq.Receive.Progress.{frame_at, Brings, IsAfter, is_whole}
use coalago.Arq.Receive.Reassembly.{receive_all}
use coalago.Arq.Receive.Download.{Arrival, Download, receive_arq_block2}
use coalago.Arq.Receive.Download.Response.{receive_arq_block2-packets}
use coalago.Arq.Receive.Buffer.{present}
use coalago.Arq.Receive.Handled.{select_handler_step}
use coalago.Arq.Receive.Delivery.{packets-Brings, packets_reassembled}

abbrev two_bodies : List (List ℕ)
two_bodies = (1 ∷ 2 ∷ []) ∷ [] ∷ (3 ∷ []) ∷ []

write_frames-ReadsAs_example :
    ReadsAs 100 two_bodies (write_frames (record { written = []; budget = 50 }) two_bodies).written
write_frames-ReadsAs_example =
    write_frames-ReadsAs 100 50 two_bodies (omega arith)
      (unfold stream_length frame encode_length in omega arith)
      (omega arith, (omega arith, (omega arith, tt)))

read_tcp_frame-frame_example :
    read_tcp_frame 16 (encode_length 2 ++ ((7 ∷ 8 ∷ []) ++ (9 ∷ []))) ≡ done (7 ∷ 8 ∷ []) (9 ∷ [])
read_tcp_frame-frame_example =
    read_tcp_frame-frame 16 (7 ∷ 8 ∷ []) (9 ∷ []) (omega arith) (omega arith)

abbrev fresh : Writer
fresh = record { written = []; budget = 20 }

write_tcp_frame_lem_example : write_tcp_frame fresh (7 ∷ 8 ∷ []) ≡ record {
  writer = wrote fresh (frame (7 ∷ 8 ∷ []));
  count = length (frame (7 ∷ 8 ∷ []));
  ok = true;
}
write_tcp_frame_lem_example =
    write_tcp_frame_lem fresh (7 ∷ 8 ∷ []) (unfold frame encode_length in omega arith)

read_tcp_frame_truncated_example :
    (read_tcp_frame 16 (2 ∷ 7 ∷ []) ≡ failed IoError.eof [])
    ⊎ (read_tcp_frame 16 (2 ∷ 7 ∷ []) ≡ failed IoError.unexpected_eof [])
read_tcp_frame_truncated_example =
    read_tcp_frame_truncated 16 (7 ∷ 8 ∷ []) (2 ∷ 7 ∷ []) 8 [] (omega arith) (omega arith)
      (unfold frame encode_length in refl)

-- A payload of 1100 bytes: two blocks.
bytes_of : ℕ → List ℕ
bytes_of zero = []
bytes_of (suc n) = 7 ∷ bytes_of n

abbrev long_payload : List ℕ
long_payload = bytes_of 1100

packets-Sends_example :
    Sends option_block2 (frames long_payload) (packets 5 option_block2 zero_message long_payload)
packets-Sends_example = packets-Sends 5 option_block2 zero_message long_payload block2-IsBlockType

abbrev packet : ℕ → CoapMessage
packet i = elim (get_elem? (packets 5 option_block1 zero_message long_payload) i) [
  | none ↦ zero_message
  | some m ↦ m
]

sends_always : CoapMessage → Option (List ℕ) → Option ℕ
sends_always m recipient = none

first_packet : get_elem? (packets 5 option_block1 zero_message long_payload) 0 ≡ some (packet 0)
unfolding packets construct_blocks construct_next_block bytes_of new_send_state
first_packet = refl

second_packet : get_elem? (packets 5 option_block1 zero_message long_payload) 1 ≡ some (packet 1)
unfolding packets construct_blocks construct_next_block bytes_of new_send_state
second_packet = refl

-- The second block first, and twice.
packets_reassembled_example :
    (r : Received ℕ) × (receive_all sends_always no_total [] (packet 1 ∷ packet 1 ∷ []) (packet 0)
      ≡ some r)
    × (r.complete ≡ is_whole long_payload (0 ∷ 1 ∷ 1 ∷ []))
    × (r.complete ≡ true → r.message.payload ≡ some (Payload.bytes_payload long_payload))
unfolding bytes_of
packets_reassembled_example =
    packets_reassembled sends_always 5 zero_message long_payload (1 ∷ 1 ∷ [])
      (packet 1 ∷ packet 1 ∷ []) 0 (packet 0)
      ((omega arith), second_packet, ((omega arith), second_packet, tt)) (omega arith) first_packet

abbrev response_packet : ℕ → CoapMessage
response_packet i = elim (get_elem? (packets 5 option_block2 zero_message long_payload) i) [
  | none ↦ zero_message
  | some m ↦ m
]

first_response :
    get_elem? (packets 5 option_block2 zero_message long_payload) 0 ≡ some (response_packet 0)
unfolding packets construct_blocks construct_next_block bytes_of new_send_state
first_response = refl

second_response :
    get_elem? (packets 5 option_block2 zero_message long_payload) 1 ≡ some (response_packet 1)
unfolding packets construct_blocks construct_next_block bytes_of new_send_state
second_response = refl

-- After the second block, which is given first.
abbrev some_arrivals : List Arrival
some_arrivals =
    Arrival.timed_out
    ∷ Arrival.message (response_packet 1)
    ∷ Arrival.message (response_packet 0)
    ∷ []

abbrev answers_always : CoapMessage → Option Error
answers_always m = none

receive_arq_block2-packets_example :
    (m : CoapMessage) × (receive_arq_block2 answers_always zero_message
        (some (response_packet 1))
        some_arrivals
      ≡ Download.received m)
    × (m.payload ≡ some (Payload.bytes_payload long_payload))
unfolding bytes_of
receive_arq_block2-packets_example =
    receive_arq_block2-packets answers_always zero_message (λ m. refl) 5 zero_message long_payload
      (some 1) (some (response_packet 1)) (none ∷ some 1 ∷ some 0 ∷ []) some_arrivals
      (omega arith, second_response)
      (omega arith, second_response, (omega arith, first_response, tt)) (omega arith) refl

-- A payload of three bytes: its first block is its last.
abbrev short_payload : List ℕ
short_payload = 1 ∷ 2 ∷ 3 ∷ []

abbrev only_packet : CoapMessage
only_packet = elim (get_elem? (packets 5 option_block1 zero_message short_payload) 0) [
  | none ↦ zero_message
  | some m ↦ m
]

only_packet-Brings : Brings (frame_at short_payload 0) only_packet
only_packet-Brings =
    packets-Brings 5 zero_message short_payload 0 only_packet (omega arith)
      (unfold packets construct_blocks construct_next_block new_send_state in refl)

nothing-IsAfter : IsAfter short_payload [] no_total []
nothing-IsAfter = record { holds = tt; same = λ j. unfold present in refl; total_ok = refl }

select_handler_step_example :
    (s : Selected) × (select_handler sends_always no_total [] only_packet ≡ some s)
    × IsAfter short_payload (0 ∷ []) s.total_blocks s.buffer
    × (s.channelled ≡ none)
    × (is_whole short_payload (0 ∷ []) ≡ false → s.handled ≡ none)
    × (is_whole short_payload (0 ∷ []) ≡ true
        → (m' : CoapMessage) × (s.handled ≡ some m')
          × (m'.payload ≡ some (Payload.bytes_payload short_payload)))
select_handler_step_example =
    select_handler_step sends_always short_payload [] no_total [] 0 only_packet (omega arith)
      nothing-IsAfter only_packet-Brings
