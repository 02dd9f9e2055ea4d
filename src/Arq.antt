-- ===== src/Arq.antt =====
-- common.go: the blocks of a large payload, and the answers to them.
pub mod Blocks
pub mod Split
pub mod Receive
pub mod Window
use coalago.Base.{
  ℕ, zero, suc, ◌+◌, ◌-◌, ◌*◌, ◌/◌, ◌%◌, Bool, true, false, Option, none, some, List, [], ◌∷◌,
  length, take, drop, ltb, leb, ◌==◌, not, if◌then◌else◌,
}
use coalago.Base.Int.{pos}
use coalago.Block.{new_block, to_int}
use coalago.Constants.{
  con, ack, coaps_scheme, max_payload_size, default_window_size, code_empty, option_block1,
  option_block2, option_proxy_uri, option_proxy_security_id, option_selective_repeat_window_size,
  option_uri_query, option_uri_scheme,
}
use coalago.Message.{
  Payload, CoapMessage, payload_bytes, new_message, get_options, add_option, add_options,
  clone_options,
}
use coalago.Options.{Value}
use coalago.Uri.{get_scheme, get_uri_path, set_uri_path, set_scheme_coaps}

-- stateSend
pub record SendState : Type 0 where
  pub lenght : ℕ
  pub start : ℕ
  pub stop : ℕ
  pub next_num_block : ℕ
  pub block_size : ℕ
  pub window_size : ℕ
  pub orig_message : CoapMessage
  pub payload : List ℕ

-- newBlockingMessage; the message id is an argument, and the token is overwritten.
unfoldable pub new_blocking_message :
    ℕ → CoapMessage → Option (List ℕ) → List ℕ → ℕ → ℕ → ℕ → ℕ → Bool → CoapMessage
new_blocking_message id orig recipient frame option_block num size window is_more =
    let m0 = new_message id [] con orig.code in
    let m1 = if get_scheme orig == coaps_scheme then set_scheme_coaps m0 else m0 in
    let m2 = add_option option_selective_repeat_window_size (Value.int (pos window)) m1 in
    let m3 =
      set_uri_path (get_uri_path orig)
        (record m2 { payload = some (Payload.bytes_payload frame) }) in
    let m4 = record m3 { token = orig.token; add_checksum_on_send = orig.add_checksum_on_send } in
    let m5 = add_options (get_options option_uri_query orig) m4 in
    let b = new_block is_more (pos num) (pos size) in
    let m6 = add_option option_block (Value.int (to_int b)) m5 in
    record m6 { recipient = recipient; proxy_addr = orig.proxy_addr }

-- constructNextBlock: the block's message, whether it is the last, and the state after it.
pub record NextBlock : Type 0 where
  pub message : CoapMessage
  pub end : Bool
  pub state : SendState

unfoldable pub construct_next_block : ℕ → ℕ → SendState → NextBlock
construct_next_block id block_type s =
    let past = s.start + s.block_size in
    let stop = if ltb s.lenght past then s.lenght else past in
    let block_byte = take (stop - s.start) (drop s.start s.payload) in
    let is_more = ltb stop s.lenght in
    let m =
      new_blocking_message id s.orig_message s.orig_message.recipient block_byte block_type
        s.next_num_block s.block_size s.window_size is_more in
    let m' = clone_options s.orig_message (option_proxy_uri ∷ option_proxy_security_id ∷ []) m in
    record {
      message = record m' { proxy_addr = s.orig_message.proxy_addr };
      end = not is_more;
      state = record s { stop = stop; next_num_block = s.next_num_block + 1; start = stop };
    }

-- generateMessageID: the id, after the shared counter has been raised to `counter`.
unfoldable pub message_id_of : ℕ → ℕ
message_id_of counter = counter % 0x1_0000

abbrev pub raise_counter : ℕ → ℕ
raise_counter counter = (counter + 1) % 0x1_0000_0000

-- The loop that fills `packets`, for at most `fuel` blocks, with the counter of message ids.
unfoldable pub construct_blocks : ℕ → ℕ → ℕ → SendState → List CoapMessage
construct_blocks zero counter block_type s = []
construct_blocks (suc fuel) counter block_type s =
    let counter' = raise_counter counter in
    let b = construct_next_block (message_id_of counter') block_type s in
    elim b.end [
      | true ↦ b.message ∷ []
      | false ↦ b.message ∷ construct_blocks fuel counter' block_type b.state
    ]

-- math.Ceil(float64(length) / float64(MAX_PAYLOAD_SIZE)), exact for the lengths of payloads
unfoldable pub block_count : ℕ → ℕ
block_count len = (len + max_payload_size - 1) / max_payload_size

-- The state that sendARQBlock1CON and sendARQBlock2ACK start from.
unfoldable pub new_send_state : CoapMessage → List ℕ → SendState
unfolding block_count
new_send_state m bytes =
    let blocks = block_count (length bytes) in
    record {
      lenght = length bytes;
      start = 0;
      stop = 0;
      next_num_block = 0;
      block_size = max_payload_size;
      window_size = if ltb blocks default_window_size then blocks else default_window_size;
      orig_message = m;
      payload = bytes;
    }

-- The packets of a message's payload; each block but the last takes a byte at least.
unfoldable pub packets : ℕ → ℕ → CoapMessage → List ℕ → List CoapMessage
packets counter block_type m bytes =
    construct_blocks (length bytes + 1) counter block_type (new_send_state m bytes)

-- ackTo; ackToWithWindowOffset builds the same message.
abbrev ack_options : List ℕ
ack_options =
    option_uri_scheme ∷ option_selective_repeat_window_size ∷ option_block1 ∷ option_block2
    ∷ option_proxy_security_id ∷ []

unfoldable pub ack_to : Option CoapMessage → CoapMessage → ℕ → CoapMessage
ack_to init orig code =
    let m0 = new_message orig.message_id orig.token ack code in
    let m1 = clone_options orig ack_options m0 in
    let m2 = record m1 { recipient = orig.sender } in
    elim init [
      | none ↦ m2
      | some i ↦ clone_options i (option_proxy_uri ∷ []) (record m2 { proxy_addr = i.proxy_addr })
    ]

-- newACKEmptyMessage
unfoldable pub new_ack_empty_message : CoapMessage → ℕ → CoapMessage
new_ack_empty_message message window =
    let m0 = new_message message.message_id message.token ack code_empty in
    let m1 = record m0 { recipient = message.recipient; payload = some Payload.empty_payload } in
    let m2 = add_option option_selective_repeat_window_size (Value.int (pos window)) m1 in
    clone_options message
      (option_block1 ∷ option_block2 ∷ option_selective_repeat_window_size
        ∷ option_proxy_security_id ∷ [])
      m2
