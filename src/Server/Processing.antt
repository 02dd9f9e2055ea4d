-- ===== src/Server/Processing.antt =====
-- localstate.go: what a local state does with a message, and the handler that it calls.
pub mod Safety
use coalago.Base.{ℕ, ◌+◌, Bool, true, false, Option, none, some, List, [], if◌then◌else◌}
use coalago.Base.Int.{ℤ}
use coalago.Arq.{message_id_of, raise_counter}
use coalago.Arq.Receive.{Chunk, Received, Selected, no_total, receive_arq_block1, select_handler}
use coalago.Constants.{Error}
use coalago.Encryption.{UrlParser}
use coalago.Message.{CoapMessage}
use coalago.Requests.{Resources, get_method, get_resource, is_ping, request_on_receive}
use coalago.Results.{Result}
use coalago.Server.{Waiting, has_waiting}
use coalago.Session.{Primitives}
use coalago.Transport.{
  Endpoint, Chance, Host, M, ◌>>=◌, give, return, ignoring_error, drawn_messages,
}
use coalago.Transport.Input.{local_state_security_input_layer}
use coalago.Transport.Output.{send_to_socket_by_address, send_to}
use coalago.Uri.{get_uri_path}

-- localState, without its lock, the server and the transport, which are arguments.
pub record LocalState : Type 0 where
  pub total_blocks : ℤ
  pub buffer : List Chunk
  pub runned_handler : Bool

-- newLocalState
unfoldable pub new_local_state : LocalState
new_local_state = record { total_blocks = no_total; buffer = []; runned_handler = false }

-- An acknowledgement whose error is told where it is sent.
abbrev unfailing : CoapMessage → Option (List ℕ) → Option Error
unfailing m sender = none

-- The acknowledgement that localStateReceiveARQBlock1 sends.
unfoldable pub block_answer : LocalState → CoapMessage → Option CoapMessage
block_answer ls m = elim (receive_arq_block1 unfailing ls.total_blocks ls.buffer m) [
  | none ↦ none
  | some r ↦ r.answer
]

-- The local state after localStateMessageHandlerSelector.
unfoldable pub kept_blocks : LocalState → Selected → LocalState
kept_blocks ls s = record ls { total_blocks = s.total_blocks; buffer = s.buffer }

module _ (p : Primitives) (url : UrlParser) (chance : Chance) (tr : Endpoint)
    (send_blocks : CoapMessage → List ℕ → M p (Unit {0})) where
  -- An error of the write is only printed.
  unfoldable pub acknowledged : List ℕ → Option CoapMessage → M p (Unit {0})
  acknowledged sender none = return tt
  acknowledged sender (some m) =
      ignoring_error (drawn_messages 1 >>= λ _. send_to_socket_by_address p url chance tr m sender)

  -- localStateMessageHandlerSelector: the state, the message that the handler is started with, and the
  -- one that goes to the channel of a transfer.
  unfoldable pub selected : LocalState → CoapMessage → List ℕ → M p (LocalState × Selected)
  selected ls m sender = elim (select_handler unfailing ls.total_blocks ls.buffer m) [
    | none ↦ give Result.panic
    | some s ↦ acknowledged sender (block_answer ls m) >>= λ _. return (kept_blocks ls s, s)
  ]

  -- A message that the security layer stops leaves the local state as it is.
  unfoldable pub stopped : LocalState → Selected
  stopped ls = record {
    total_blocks = ls.total_blocks;
    buffer = ls.buffer;
    handled = none;
    channelled = none;
  }

  unfoldable pub unless_stopped :
      LocalState
      → List ℕ
      → Result (Option CoapMessage) × Host p
      → Result (LocalState × Selected) × Host p
  unless_stopped ls sender (Result.ok (some m), h) = selected ls m sender h
  unless_stopped ls sender (Result.ok none, h) = (Result.ok (ls, stopped ls), h)
  unless_stopped ls sender (Result.err e, h) = (Result.ok (ls, stopped ls), h)
  unless_stopped ls sender (Result.panic, h) = (Result.panic, h)
  unless_stopped ls sender (Result.blocked, h) = (Result.blocked, h)

  -- processMessage of a message whose sender has the text `sender`.
  unfoldable pub process_message : LocalState → CoapMessage → List ℕ → M p (LocalState × Selected)
  process_message ls m sender h =
      unless_stopped ls sender
        (local_state_security_input_layer p url chance tr send_blocks m sender [] h)

  -- The call of requestOnReceive: its answer draws a token, and an id if it is that of a ping.
  unfoldable pub answer_drawn : CoapMessage → Host p → Host p
  answer_drawn m h = record h {
    draws = h.draws + 1;
    counter = if is_ping m then raise_counter h.counter else h.counter;
  }

  unfoldable pub answer_request : Resources → CoapMessage → List ℕ → M p (Unit {0})
  answer_request resources m sender h =
      elim (request_on_receive (message_id_of (raise_counter h.counter)) (chance.token h.draws)
        (get_resource (get_uri_path m) (get_method m) resources) m) [
          | none ↦ (Result.ok tt, h)
          | some r ↦
              ignoring_error (send_to p url chance tr send_blocks r sender) (answer_drawn m h)
        ]

  -- localRespHandler without an error: the state, and the message that bq.Write gets. Handling has
  -- the entries of StorageLocalStates and ProcessedMessages that it then changes.
  unfoldable pub respond :
      Resources
      → Waiting
      → LocalState
      → CoapMessage
      → List ℕ
      → M p (LocalState × Option CoapMessage)
  respond resources bq ls m sender = elim ls.runned_handler [
    | true ↦ return (ls, none)
    | false ↦
        let ls' = record ls { runned_handler = true } in
        elim (has_waiting m sender bq) [
          | true ↦ return (ls', some m)
          | false ↦ answer_request resources m sender >>= λ _. return (ls', none)
        ]
  ]

  -- A message that is processed, and then the handler that it starts.
  unfoldable pub handled_by :
      Resources → Waiting → List ℕ → LocalState × Selected → M p (LocalState × Option CoapMessage)
  handled_by resources bq sender (ls, s) = elim s.handled [
    | none ↦ return (ls, none)
    | some m ↦ respond resources bq ls m sender
  ]

  unfoldable pub serve_message :
      Resources
      → Waiting
      → LocalState
      → CoapMessage
      → List ℕ
      → M p (LocalState × Option CoapMessage)
  serve_message resources bq ls m sender =
      process_message ls m sender >>= handled_by resources bq sender
