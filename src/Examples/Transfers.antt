-- ===== src/Examples/Transfers.antt =====
-- transport.go: sendCON with a silent peer, and a large answer that SendTo sends in blocks.
use coalago.Base.{ℕ, ◌≡◌, refl, true, false, Option, none, some, List, [], ◌∷◌, zero, suc}
use coalago.Base.Tests.{bytes_eq}
use coalago.Base.Text.{codes}
use coalago.Block.{get_block2}
use coalago.Checksum.{deserialize_checked, check_message, verify_checksum}
use coalago.Codec.{serialize}
use coalago.Codec.Deserialize.{
  deserialize, after_header, parse_options, round, finish_message, validate_message,
  has_repeated_critical,
}
use coalago.Constants.{Error, con, ack, code_get}
use coalago.Message.{Payload, CoapMessage, zero_message, get_option, clone, is_big_payload}
use coalago.Results.{Result}
use coalago.Session.Ready.{Anything}
use coalago.Transport.{Host, Reading, M, fail, return, give, ◌>>=◌}
use coalago.Requests.{Resources, new_response, new_coap_resource, add_resource}
use coalago.Server.Processing.{new_local_state, serve_message}
use coalago.Server.Processing.Safety.{serve_message-Ends}
use coalago.Encryption.Ready.{HasPayload}
use coalago.Transport.Blocks.{transport_send_to, block2_transfer}
use coalago.Transport.Exchange.{send_con, take_response}
use coalago.Transport.Input.{
  receive_message, receive_loop, after_datagram, preparation_receiving_buffer, checked_message,
  security_input_layer, receive_handshake, handle_coaps_scheme, opened, reported,
}
use coalago.Transport.Output.{
  preparation_sending_message, security_output_layer, with_checksum, proxy_with_id,
}
use coalago.Transport.Silence.{waited, send_con_silent, send_con_answered}
use coalago.Transport.Sound.{Ends}
use coalago.Transport.Sound.Transfers.{IsNumbered, transport_send_to-Ends}
use coalago.Uri.{get_scheme}
use coalago.Examples.Secured.{plain, fixed_url, new_host, new_host-IsSound, endpoint, chance}

abbrev no_blocks : CoapMessage → List ℕ → M plain (Unit {0})
no_blocks m addr = fail Error.max_attempts

abbrev no_blocks1 : CoapMessage → M plain CoapMessage
no_blocks1 m = fail Error.max_attempts

abbrev question : CoapMessage
question = record zero_message { type = con; code = code_get; message_id = 7; token = 9 ∷ [] }

abbrev question_bytes : List ℕ
question_bytes = (serialize (clone true question)).0

-- Six deadlines.
abbrev silent_host : Host plain
silent_host = record new_host {
  incoming =
      (1, Reading.deadline)
      ∷ (2, Reading.deadline)
      ∷ (3, Reading.deadline)
      ∷ (4, Reading.deadline)
      ∷ (5, Reading.deadline)
      ∷ (6, Reading.deadline)
      ∷ [];
}

question_prepared :
    (h : Host plain)
    → preparation_sending_message plain fixed_url chance endpoint question endpoint.remote_addr h
      ≡ (Result.ok question_bytes, h)
unfolding preparation_sending_message security_output_layer with_checksum get_scheme get_option
    return clone ◌>>=◌
question_prepared h = refl

question_small : is_big_payload question ≡ false
unfolding is_big_payload
question_small = refl

send_con_silent_example :
    send_con plain fixed_url chance endpoint no_blocks no_blocks1 question silent_host ≡ (
      Result.err Error.max_attempts,
      waited (endpoint.remote_addr, question_bytes) (1 ∷ 2 ∷ 3 ∷ 4 ∷ 5 ∷ 6 ∷ []) [] silent_host,
    )
send_con_silent_example =
    send_con_silent plain fixed_url chance endpoint no_blocks question_bytes refl no_blocks1
      question silent_host silent_host question_small (question_prepared silent_host)
      (1 ∷ 2 ∷ 3 ∷ 4 ∷ 5 ∷ 6 ∷ []) [] refl refl

-- An acknowledgement with the token 9, after one deadline.
abbrev reply_bytes : List ℕ
reply_bytes = 0x61 ∷ 0x45 ∷ 0 ∷ 7 ∷ 9 ∷ []

abbrev late_host : Host plain
late_host = record new_host {
  incoming = (1, Reading.deadline) ∷ (2, Reading.arrived reply_bytes) ∷ [];
}

abbrev reply : CoapMessage
reply = record zero_message {
  type = ack;
  code = 0x45;
  message_id = 7;
  token = 9 ∷ [];
  payload = some (Payload.bytes_payload []);
  sender = some endpoint.remote_addr;
}

reply_read :
    checked_message (deserialize_checked reply_bytes) endpoint.remote_addr ≡ Result.ok reply
unfolding checked_message deserialize_checked check_message verify_checksum get_option deserialize
    after_header parse_options round finish_message validate_message has_repeated_critical
reply_read = refl

reply_received :
    (h : Host plain)
    → receive_message plain fixed_url chance endpoint no_blocks question
        (record h { incoming = (2, Reading.arrived reply_bytes) ∷ [] })
      ≡ (Result.ok reply, record h { now = 2; incoming = [] })
unfolding receive_message receive_loop preparation_receiving_buffer give ◌>>=◌ after_datagram
    bytes_eq
reply_received h = rw reply_read (
    unfold security_input_layer proxy_with_id receive_handshake handle_coaps_scheme opened reported
      get_scheme get_option return in
    refl)

send_con_answered_example :
    send_con plain fixed_url chance endpoint no_blocks no_blocks1 question late_host
    ≡ take_response plain fixed_url chance endpoint no_blocks question reply (record late_host {
      now = 2;
      incoming = [];
      written =
          (endpoint.remote_addr, question_bytes) ∷ (endpoint.remote_addr, question_bytes) ∷ [];
    })
send_con_answered_example =
    send_con_answered plain fixed_url chance endpoint no_blocks question_bytes refl no_blocks1
      question late_host late_host question_small (question_prepared late_host) (1 ∷ []) 4
      ((2, Reading.arrived reply_bytes) ∷ []) reply
      (record late_host {
        now = 2;
        incoming = [];
        written =
            (endpoint.remote_addr, question_bytes) ∷ (endpoint.remote_addr, question_bytes) ∷ [];
      })
      refl refl
      (reply_received (record late_host {
        now = 1;
        written =
            (endpoint.remote_addr, question_bytes) ∷ (endpoint.remote_addr, question_bytes) ∷ [];
      }))

abbrev zeros : ℕ → List ℕ
zeros zero = []
zeros (suc n) = 0 ∷ zeros n

-- An answer of 1500 bytes, and the acknowledgement of its first block after the timer.
abbrev large_answer : CoapMessage
large_answer = record reply { payload = some (Payload.bytes_payload (zeros 1500)) }

abbrev one_timer : CoapMessage → List ℕ → List (ℕ × Option CoapMessage)
one_timer m addr = (1_000_000_001, none) ∷ (1_000_000_002, some reply) ∷ []

reply-IsNumbered : IsNumbered reply
unfolding get_block2 get_option
reply-IsNumbered = record { number_ok = λ b e. cc e }

transport_send_to-Ends_example : Ends Anything (
    transport_send_to plain fixed_url chance endpoint one_timer large_answer
      (codes "10.0.0.2:5683")
      new_host)
transport_send_to-Ends_example =
    transport_send_to-Ends plain fixed_url chance endpoint one_timer large_answer
      (codes "10.0.0.2:5683") new_host (λ n a. (tt, (reply-IsNumbered, tt))) new_host-IsSound

-- A server whose resource answers any GET with 1500 bytes, and the question to it.
abbrev resources : Resources
resources =
    add_resource
      (new_coap_resource 1 (b'*' ∷ [])
        (λ m. some (new_response (some (Payload.bytes_payload (zeros 1500))) 0x45)))
      []

abbrev asked : CoapMessage
asked = record question { payload = some (Payload.bytes_payload []) }

asked-HasPayload : HasPayload asked
asked-HasPayload = record { payload_there = λ e. cc e }

serve_message-Ends_example : Ends Anything (
    serve_message plain fixed_url chance endpoint
      (block2_transfer plain fixed_url chance endpoint one_timer)
      resources
      []
      new_local_state
      asked
      (codes "10.0.0.2:5683")
      new_host)
serve_message-Ends_example =
    serve_message-Ends plain fixed_url chance endpoint one_timer resources [] new_local_state asked
      (codes "10.0.0.2:5683") new_host (λ n a. (tt, (reply-IsNumbered, tt))) asked-HasPayload
      new_host-IsSound
