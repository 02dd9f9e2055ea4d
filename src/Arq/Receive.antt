-- ===== src/Arq/Receive.antt =====
-- localstate.go and storage.go: the receiver of a request that comes in blocks.
pub mod Buffer
pub mod Progress
pub mod Reassembly
pub mod Delivery
pub mod Download
pub mod Handled
pub mod Wire
use coalago.Base.{
  ℕ, zero, suc, ◌+◌, Bool, true, false, Option, none, some, List, [], ◌∷◌, ◌++◌, length, not,
  if◌then◌else◌, ◌==◌,
}
use coalago.Base.Int.{ℤ, pos, negsuc, int_eq}
use coalago.Block.{Block, get_block1, get_block2}
use coalago.Constants.{con, ack, code_continue, option_selective_repeat_window_size}
use coalago.Message.{Payload, CoapMessage, payload_bytes, get_option}
use coalago.Arq.{ack_to}

-- An entry of the map from block numbers to bytes. A map is the list of its entries, whose keys
-- are distinct.
pub record Chunk : Type 0 where
  pub key : ℤ
  pub bytes : List ℕ

-- buf[key] = bytes
unfoldable pub store : ℤ → List ℕ → List Chunk → List Chunk
store key bytes [] = record { key = key; bytes = bytes } ∷ []
store key bytes (c ∷ buf) =
    let rest = store key bytes buf in
    if int_eq c.key key then record { key = key; bytes = bytes } ∷ buf else c ∷ rest

-- buf[key], which is nil for a key that is not there.
unfoldable pub lookup : ℤ → List Chunk → List ℕ
lookup key [] = []
lookup key (c ∷ buf) = let rest = lookup key buf in if int_eq c.key key then c.bytes else rest

-- The loop of assembleBlocks, for `count` blocks from number `i` on.
unfoldable pub assemble_from : ℕ → ℕ → List Chunk → List ℕ
assemble_from zero i buf = []
assemble_from (suc count) i buf = lookup (pos i) buf ++ assemble_from count (i + 1) buf

-- assembleBlocks
unfoldable pub assemble_blocks : List Chunk → ℤ → List ℕ
assemble_blocks buf (pos total) = assemble_from total 0 buf
assemble_blocks buf (negsuc n) = []

-- What localStateReceiveARQBlock1 returns, and the answer that it sent. `failure` is the error of
-- sendToSocketByAddress.
pub record Received (E : Type 0) : Type 0 where
  pub complete : Bool
  pub total_blocks : ℤ
  pub buffer : List Chunk
  pub message : CoapMessage
  pub answer : Option CoapMessage
  pub failure : Option E

-- The early return: no block was taken.
abbrev ignored : {E : Type 0} → ℤ → List Chunk → CoapMessage → Received E
ignored total buf m = record {
  complete = false;
  total_blocks = total;
  buffer = buf;
  message = m;
  answer = none;
  failure = none;
}

-- The total and the buffer with one block more, and all the bytes if the block completes them: what
-- localStateReceiveARQBlock1 and receiveARQBlock2 both do with a block.
pub record Collected : Type 0 where
  pub total_blocks : ℤ
  pub buffer : List Chunk
  pub whole : Option (List ℕ)

unfoldable pub after_last : ℤ → ℤ
after_last (pos n) = pos (n + 1)
after_last (negsuc zero) = pos 0
after_last (negsuc (suc n)) = negsuc n

unfoldable pub collect : Block → List ℕ → ℤ → List Chunk → Collected
unfolding store after_last
collect block bytes total buf =
    let total' = if not block.more then after_last block.number else total in
    let buf' = store block.number bytes buf in
    record {
      total_blocks = total';
      buffer = buf';
      whole =
          if int_eq total' (pos (length buf')) then some (assemble_blocks buf' total') else none;
    }

-- What localStateMessageHandlerSelector does with a message.
pub record Selected : Type 0 where
  pub total_blocks : ℤ
  pub buffer : List Chunk
  pub handled : Option CoapMessage
  pub channelled : Option CoapMessage

module _ {E : Type 0} (send : CoapMessage → Option (List ℕ) → Option E) where
  -- The end of localStateReceiveARQBlock1.
  unfoldable pub take_block : Block → List ℕ → ℤ → List Chunk → CoapMessage → Received E
  take_block block bytes total buf m =
      let c = collect block bytes total buf in
      let code = code_continue in
      let ack = ack_to none m code in
      elim c.whole [
        | some b ↦ record {
          complete = true;
          total_blocks = c.total_blocks;
          buffer = c.buffer;
          message = record m { payload = some (Payload.bytes_payload b) };
          answer = none;
          failure = none;
        }
        | none ↦ record {
          complete = false;
          total_blocks = c.total_blocks;
          buffer = c.buffer;
          message = m;
          answer = some ack;
          failure = send ack m.sender;
        }
      ]

  -- The tests of localStateReceiveARQBlock1, on the block, whether the type is CON, and the payload.
  unfoldable pub receive_block :
      Option Block → Bool → Option Payload → ℤ → List Chunk → CoapMessage → Option (Received E)
  receive_block none confirmable payload total buf m = some (ignored total buf m)
  receive_block (some block) false payload total buf m = some (ignored total buf m)
  receive_block (some block) true none total buf m = none
  receive_block (some block) true (some p) total buf m =
      some (take_block block (payload_bytes p) total buf m)

  -- localStateReceiveARQBlock1; none where the code panics on a nil payload.
  unfoldable pub receive_arq_block1 : ℤ → List Chunk → CoapMessage → Option (Received E)
  receive_arq_block1 total buf m =
      receive_block (get_block1 m) (m.type == con) m.payload total buf m

  -- localStateMessageHandlerSelector: the state after the message, the message that the response
  -- handler is called with, and the message that goes to the channel of a sender of blocks, whether
  -- there is one or not.
  unfoldable pub select_handler : ℤ → List Chunk → CoapMessage → Option Selected
  select_handler total buf m = elim (get_block1 m) [
    | some b ↦ elim (m.type == con) [
      | true ↦ elim (receive_arq_block1 total buf m) [
        | none ↦ none
        | some r ↦ some (record {
          total_blocks = r.total_blocks;
          buffer = r.buffer;
          handled = if r.complete then some r.message else none;
          channelled = none;
        })
      ]
      | false ↦
          some (record { total_blocks = total; buffer = buf; handled = none; channelled = none })
    ]
    | none ↦ elim (get_block2 m) [
      | some b ↦ some (record {
        total_blocks = total;
        buffer = buf;
        handled = none;
        channelled = if m.type == ack then some m else none;
      })
      | none ↦
          some (record { total_blocks = total; buffer = buf; handled = some m; channelled = none })
    ]
  ]

-- newLocalState: the total and the buffer before the first block.
abbrev pub no_total : ℤ
no_total = negsuc 0
