-- ===== src/Arq/Receive/Download.antt =====
-- transport.go: receiveARQBlock2, the receiver of a response that comes in blocks.
pub mod Completes
pub mod Response
use coalago.Base.{ℕ, ◌+◌, Bool, true, false, Option, none, some, List, [], ◌∷◌, ◌==◌}
use coalago.Base.Int.{ℤ}
use coalago.Block.{Block, get_block2}
use coalago.Constants.{Error, con, code_empty, code_continue, max_send_attempts}
use coalago.Message.{Payload, CoapMessage, payload_bytes}
use coalago.Arq.{ack_to}
use coalago.Arq.Receive.{Chunk, Collected, collect, no_total}

-- What receiveMessage returns: a message, ErrMaxAttempts, or another error.
pub data Arrival : Type 0 where
  message : CoapMessage → Arrival
  timed_out : Arrival
  broken : Error → Arrival

-- What receiveARQBlock2 returns: the whole message, or an error; a panic on a nil payload; or that
-- it still waits after all arrivals.
pub data Download : Type 0 where
  received : CoapMessage → Download
  failed : Error → Download
  panicked : Download
  waiting : ℤ → List Chunk → Download

-- The block of a message, if the loop takes it: it skips messages with no block, and those that are
-- not CON.
unfoldable pub block_of : CoapMessage → Option Block
block_of m = elim (get_block2 m) [
  | none ↦ none
  | some b ↦ elim (m.type == con) [ true ↦ some b | false ↦ none ]
]

-- What the loop does with the block and the payload of a message; the payload may be nil.
pub data Taken : Type 0 where
  skip : Taken
  crash : Taken
  took : Collected → Taken

unfoldable pub take : Option Block → Option Payload → ℤ → List Chunk → Taken
take none payload total buf = Taken.skip
take (some block) none total buf = Taken.crash
take (some block) (some p) total buf = Taken.took (collect block (payload_bytes p) total buf)

module _ (send : CoapMessage → Option Error) (orig : CoapMessage) where
  -- The answer to the last block, and the message with the whole payload.
  unfoldable pub finish_download : CoapMessage → List ℕ → Download
  finish_download m bytes =
      let m' = record m { payload = some (Payload.bytes_payload bytes) } in
      elim (send (ack_to (some orig) m' code_empty)) [
        | some e ↦ Download.failed e
        | none ↦ Download.received m'
      ]

  -- The loop, with the number of timeouts so far.
  unfoldable pub download : ℕ → ℤ → List Chunk → List Arrival → Download
  download attempts total buf [] = Download.waiting total buf
  download attempts total buf (Arrival.timed_out ∷ as') = elim (attempts == max_send_attempts) [
    | true ↦ Download.failed Error.max_attempts
    | false ↦ download (attempts + 1) total buf as'
  ]
  download attempts total buf (Arrival.broken e ∷ as') = Download.failed e
  download attempts total buf (Arrival.message m ∷ as') =
      elim (take (block_of m) m.payload total buf) [
        | Taken.skip ↦ download attempts total buf as'
        | Taken.crash ↦ Download.panicked
        | Taken.took c ↦ elim c.whole [
          | some bytes ↦ finish_download m bytes
          | none ↦ elim (send (ack_to (some orig) m code_continue)) [
            | some e ↦ Download.failed e
            | none ↦ download attempts c.total_blocks c.buffer as'
          ]
        ]
      ]

  -- receiveARQBlock2. The errors of the answers to a first message are not looked at.
  unfoldable pub receive_arq_block2 : Option CoapMessage → List Arrival → Download
  receive_arq_block2 none as' = download 0 no_total [] as'
  receive_arq_block2 (some m) as' = elim (take (block_of m) m.payload no_total []) [
    | Taken.skip ↦ download 0 no_total [] as'
    | Taken.crash ↦ Download.panicked
    | Taken.took c ↦ elim c.whole [
      | some bytes ↦ Download.received (record m { payload = some (Payload.bytes_payload bytes) })
      | none ↦ download 0 c.total_blocks c.buffer as'
    ]
  ]
