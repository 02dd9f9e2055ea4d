-- ===== src/Examples/Handling.antt =====
-- server.go, localstate.go: a request and its retransmissions.
use coalago.Base.{◌≤◌, ◌≡◌, refl, none, [], ◌∷◌}
use coalago.Handling.{
  Handling, Steps, process_local_state, call_handler, times_run, times_run-le, nothing_kept,
}

-- A message, its handler, and a retransmission that calls the handler again.
abbrev retransmitted : Handling
retransmitted =
    call_handler 0 (process_local_state (call_handler 0 (process_local_state nothing_kept)))

abbrev retransmission : Steps retransmitted
retransmission = Steps.call _ 0 (Steps.receive _ (Steps.call _ 0 (Steps.receive _ Steps.start)))

times_run-le_example : times_run 0 retransmitted.runs ≤ 1
times_run-le_example = times_run-le retransmitted 0 retransmission

-- A retransmission between the removal of the local state and the mark in ProcessedMessages: the
-- handlers of two local states run.
abbrev raced : Handling
raced = call_handler 1 (
    process_local_state
      (record (call_handler 0 (process_local_state nothing_kept)) { stored = none }))

raced_runs : raced.runs ≡ 1 ∷ 0 ∷ []
unfolding call_handler process_local_state
raced_runs = refl

raced_steps : Steps raced
raced_steps =
    Steps.call _ 1 (Steps.receive _ (Steps.remove _ (Steps.call _ 0 (Steps.receive _ Steps.start))))
