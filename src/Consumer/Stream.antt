-- ===== src/Consumer/Stream.antt =====
-- Consume of pkg/consumer/service.go. What the context, the client and the callback do while a stream
-- runs is a script: one round for each turn of the loop. `status.FromContextError(e).Err()`, which is
-- outside the repository, is a parameter; it is given errors that are not nil, and gives one.
pub mod Turns
pub mod Acknowledged
pub mod Drained
pub mod Counters
pub mod Answers
use flowctl_sdk.Base.{
  ℕ, ◌+◌, ◌%◌, ◌^◌, Bool, true, false, not, ◌&&◌, ◌||◌, List, [], ◌∷◌, ◌++◌, Option, none, some,
  is_some, String, if◌then◌else◌, ltb, ◌==◌, inc64, positive64, length,
}
use flowctl_sdk.Base.Dict.{Dict, get}
use flowctl_sdk.Errors.{
  Error, status, Code, is_error, is_eof, context_canceled, context_deadline_exceeded, Result, good,
  bad,
}
use flowctl_sdk.Protocol.{Event}
use flowctl_sdk.Consumer.{Consumer}

-- What a look at the context and at `stopCh` finds: nothing, the context's error, or the stop. Where a
-- `select` also waits for a result, `free` says that the result was there.
pub data Look : Type 0 where
  free : Look
  ended : Error → Look
  stopped : Look

-- One turn of the loop: what each look finds, what Recv returns (`good none` is a nil event), what
-- the callback returns for an event, and what SendAndClose returns.
pub record Round : Type 0 where
  pub head : Look
  pub receive : Look
  pub received : Result (Option Event)
  pub after_receive : Look
  pub handle : Event → Option Error
  pub handling : Look
  pub after_handling : Look
  pub send_and_close : Option Error

-- The response to the client.
pub record Response : Type 0 where
  pub consumed : ℕ
  pub failed : ℕ
  pub errors : List String

-- The variables of the call.
pub record Tally : Type 0 where
  pub consumed : ℕ  -- int64
  pub failed : ℕ  -- int64
  pub filtered : ℕ  -- int64
  pub summaries : List String

-- How a call ends: with an error, or with a response, and what sending it returns.
pub data Answer : Type 0 where
  error : Error → Answer
  responds : Response → Option Error → Answer

pub data Turn : Type 0 where
  goes_on : Consumer → Tally → Turn
  ends : Answer → Turn

-- `if _, ok := c.inputTypeSet[r.event.Type]; !ok`, behind the test of the set's size.
unfoldable pub is_filtered : Event → Dict Bool → Bool
is_filtered e types = ltb 0 (length types) && not (is_some (get e.event_type types))

unfoldable pub summarise : List String → List String
summarise ss = if ltb (length ss) 8 then ss ++ "consumer handler failed" ∷ [] else ss

unfoldable pub count_consumed : Consumer → Consumer
count_consumed c = record c {
  events_consumed = inc64 c.events_consumed;
  success_count = inc64 c.success_count;
}

unfoldable pub count_failed : Consumer → Consumer
count_failed c = record c {
  events_failed = inc64 c.events_failed;
  error_count = inc64 c.error_count;
}

-- The end of the input.
unfoldable pub close_stream : Round → Tally → Answer
close_stream r l =
    if positive64 l.filtered && (l.consumed + l.failed) % 2 ^ 64 == 0
    then error (status Code.failed_precondition "no events matched consumer input types")
    else responds (record { consumed = l.consumed; failed = l.failed; errors = l.summaries })
        r.send_and_close

module _ (from_context_error : Error → Error) where
  -- A look that finds nothing goes on to `k`.
  unfoldable pub looking : Look → Turn → Turn
  looking free k = k
  looking (ended e) k = ends (error (from_context_error e))
  looking stopped k = ends (error (status Code.canceled "consumer stopped"))

  -- What follows the callback.
  unfoldable pub finish_event : Option Error → Consumer → Tally → Turn
  unfolding count_consumed count_failed summarise
  finish_event none c l = goes_on (count_consumed c) (record l { consumed = inc64 l.consumed })
  finish_event (some e) c l =
      if is_error e context_canceled || is_error e context_deadline_exceeded
      then ends (error (from_context_error e))
      else goes_on (count_failed c)
          (record l { failed = inc64 l.failed; summaries = summarise l.summaries })

  unfoldable pub handle_event : Round → Event → Consumer → Tally → Turn
  unfolding is_filtered looking finish_event
  handle_event r e c l =
      if is_filtered e c.input_type_set
      then goes_on c (record l { filtered = inc64 l.filtered })
      else if not c.has_handler
      then ends (error (status Code.failed_precondition "consumer handler not configured"))
      else looking r.handling (looking r.after_handling (finish_event (r.handle e) c l))

  unfoldable pub take_event : Round → Result (Option Event) → Consumer → Tally → Turn
  unfolding close_stream handle_event
  take_event r (bad x) c l =
      if is_eof x
      then ends (close_stream r l)
      else ends (error (status Code.unavailable "consumer receive failed"))
  take_event r (good none) c l = ends (error (status Code.invalid_argument "nil event"))
  take_event r (good (some e)) c l = handle_event r e c l

  -- One turn of the loop.
  unfoldable pub round_step : Round → Consumer → Tally → Turn
  unfolding looking take_event
  round_step r c l =
      looking r.head (looking r.receive (looking r.after_receive (take_event r r.received c l)))

  -- The loop of Consume. A script that ends leaves the call running.
  unfoldable pub consume_loop : List Round → Consumer → Tally → Consumer × Option Answer
  unfolding round_step
  consume_loop [] c l = (c, none)
  consume_loop (r ∷ rs) c l = elim (round_step r c l) [
    | goes_on c' l' ↦ consume_loop rs c' l'
    | ends a ↦ (c, some a)
  ]

  unfoldable pub consume : List Round → Consumer → Consumer × Option Answer
  unfolding consume_loop
  consume rs c =
      consume_loop rs c (record { consumed = 0; failed = 0; filtered = 0; summaries = [] })
