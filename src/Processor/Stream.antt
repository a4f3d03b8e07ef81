-- ===== src/Processor/Stream.antt =====
-- The streams of pkg/processor/processor.go: Process and processAndSend. What the context, the client
-- and the handlers do while a stream runs is a script: one round for each turn of the loop.
pub mod Turns
pub mod Delivery
pub mod Verdicts
pub mod Counts
pub mod Answers
use flowctl_sdk.Base.{
  ℕ, Bool, true, false, ◌||◌, List, [], ◌∷◌, ◌++◌, Option, none, some, String, if◌then◌else◌,
}
use flowctl_sdk.Errors.{
  Error, sentinel, plain, is_error, context_canceled, context_deadline_exceeded, processor_stopped,
  handler_not_found, is_eof, Result, good, bad,
}
use flowctl_sdk.Flowctl.Metrics.{
  Floats, increment_processed_count, increment_error_count, increment_success_count,
  record_processing_latency,
}
use flowctl_sdk.Protocol.{Event}
use flowctl_sdk.Processor.{Processor}
use flowctl_sdk.Processor.Handler.{Handler, get_handlers_for_type}

-- The choice of the `select`, and in its default case what Recv returns.
pub data Pick : Type 0 where
  done : Error → Pick
  stopped : Pick
  received : Result Event → Pick

-- `handle` is what each handler's function does with the event (`good none` is a nil event), after
-- `elapsed` milliseconds; `context` is `ctx.Err()` after an error of the handler, and `send` what
-- Send returns.
pub record Round : Type 0 where
  pub now : ℕ
  pub pick : Pick
  pub handle : Handler → Event → Result (Option Event)
  pub elapsed : ℕ
  pub context : Option Error
  pub send : Option Error

-- What processAndSend does: the event it has sent, if any, and its error.
pub record Processed (F : Type 0) : Type 0 where
  pub processor : Processor F
  pub output : Option Event
  pub error : Option Error

-- How a turn of the loop goes on: with what it has sent, or with the stream's answer.
pub data Turn (F : Type 0) : Type 0 where
  goes_on : Option Event → Processor F → Turn F
  ends : Processor F → Option Error → Turn F

-- What became of a stream: the events that were sent, and its answer, unless it still runs.
pub record Streamed (F : Type 0) : Type 0 where
  pub processor : Processor F
  pub sent : List Event
  pub answer : Option (Option Error)

-- The error that processAndSend makes of a handler's error.
unfoldable pub handler_error : Option Error → Error → Error
handler_error (some c) e = c
handler_error none e =
    if is_error e context_canceled || is_error e context_deadline_exceeded
    then e
    else plain "processor handler failed"

unfoldable pub emit : Option Event → List Event
emit none = []
emit (some e) = e ∷ []

-- `if err := p.processAndSend(…); err != nil { return err }`.
unfoldable pub next_turn : {F : Type 0} → Processed F → Turn F
next_turn q = elim q.error [
  | none ↦ goes_on q.output q.processor
  | some x ↦ ends q.processor (some x)
]

module _ (fl : Floats) where
  open fl use {F, from_ms}

  -- The metrics that each handled event moves.
  unfoldable pub record_handled : Round → Processor F → Processor F
  record_handled r p = record p {
    metrics =
        increment_processed_count r.now
          (record_processing_latency fl r.now (from_ms r.elapsed) p.metrics);
  }

  -- What follows the call of the handler.
  unfoldable pub finish_event : Round → Result (Option Event) → Processor F → Processed F
  unfolding handler_error
  finish_event r (bad e) p = record {
    processor = record p { metrics = increment_error_count r.now p.metrics };
    output = none;
    error = some (handler_error r.context e);
  }
  finish_event r (good none) p = record { processor = p; output = none; error = none }
  finish_event r (good (some o)) p =
      let p' = record p { metrics = increment_success_count r.now p.metrics } in
      elim r.send [
        | some x ↦ record { processor = p'; output = none; error = some x }
        | none ↦ record { processor = p'; output = some o; error = none }
      ]

  unfoldable pub process_with : Round → Event → List Handler → Processor F → Processed F
  unfolding record_handled finish_event
  process_with r e [] p = record {
    processor = record p { metrics = increment_error_count r.now p.metrics };
    output = none;
    error = some (sentinel handler_not_found);
  }
  process_with r e (h ∷ hs) p = finish_event r (r.handle h e) (record_handled r p)

  unfoldable pub process_and_send : Round → Event → Processor F → Processed F
  unfolding process_with
  process_and_send r e p = process_with r e (get_handlers_for_type e.event_type p.registry) p

  unfoldable pub pick_step : Round → Pick → Processor F → Turn F
  unfolding is_eof process_and_send next_turn
  pick_step r (done c) p = ends p (some c)
  pick_step r stopped p = ends p (some (sentinel processor_stopped))
  pick_step r (received (bad x)) p = ends p (if is_eof x then none else some x)
  pick_step r (received (good e)) p = next_turn (process_and_send r e p)

  -- The loop of Process. A script that ends leaves the stream running.
  unfoldable pub process_loop : List Round → List Event → Processor F → Streamed F
  unfolding pick_step emit
  process_loop [] sent p = record { processor = p; sent = sent; answer = none }
  process_loop (r ∷ rs) sent p = elim (pick_step r r.pick p) [
    | goes_on o p' ↦ process_loop rs (sent ++ emit o) p'
    | ends p' a ↦ record { processor = p'; sent = sent; answer = some a }
  ]

  unfoldable pub process : List Round → Processor F → Streamed F
  unfolding process_loop
  process rs p = process_loop rs [] p
