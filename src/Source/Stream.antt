-- ===== src/Source/Stream.antt =====
-- The streams of pkg/source/source.go: StreamEvents, streamWithResult and failStream. What the
-- context, the channels and the client do while a stream runs is a script: one round for each turn
-- of the loop. A context may end at any look at it; `none` says that it has not ended.
pub mod Turns
pub mod Delivery
pub mod Counts
pub mod Failures
pub mod Exclusion
use flowctl_sdk.Base.{
  ℕ, Bool, true, false, not, ◌&&◌, List, [], ◌∷◌, ◌++◌, Option, none, some, is_some, String,
  if◌then◌else◌,
}
use flowctl_sdk.Errors.{
  Error, ErrorKind, sentinel, plain, wrapped, classified, invalid_request, upstream_unavailable,
  data_integrity, downstream_unavailable, unlisted, is_error, as_stream_error, context_canceled,
  context_deadline_exceeded, source_stopped, producer_not_set, Result, good, bad,
}
use flowctl_sdk.Flowctl.Types.{unhealthy}
use flowctl_sdk.Flowctl.Metrics.{
  increment_processed_count, increment_error_count, increment_success_count,
}
use flowctl_sdk.Service.{set_status}
use flowctl_sdk.Source.{Source, Claim, begin_stream, end_stream}
use flowctl_sdk.Source.Status.{stream_status}

-- What `ctx.Err()` gives when it is not nil.
pub data ContextError : Type 0 where
  cancelled timed_out : ContextError

unfoldable pub context_error : ContextError → Error
context_error cancelled = sentinel context_canceled
context_error timed_out = sentinel context_deadline_exceeded

-- The receive on `result.Result` after the events have ended: nothing there, a closed channel, or a
-- value, with whether another one waits behind it.
pub data Terminal : Type 0 where
  absent closed_result : Terminal
  value : Option Error → Bool → Terminal

-- The choice of the `select`: the context is done; an event (`none` is a nil event), with the context
-- after it and what Send returns; the end of the events, with two later looks at the context.
pub data Pick : Type 0 where
  done : ContextError → Pick
  event : Option ℕ → Option ContextError → Option Error → Pick
  closed : Option ContextError → Terminal → Option ContextError → Pick

pub record Round : Type 0 where
  pub now : ℕ
  pub context : Option ContextError  -- at the head of the loop
  pub pick : Pick

-- How a turn of the loop goes on: with the event that it sent, or with the stream's answer.
pub data Turn (F : Type 0) : Type 0 where
  sends : ℕ → Source F → Turn F
  ends : Source F → Option Error → Turn F

-- What became of a stream: the events that were sent, and its answer, unless it still runs.
pub record Streamed (F : Type 0) : Type 0 where
  pub source : Source F
  pub sent : List ℕ
  pub answer : Option (Option Error)

unfoldable pub kind_unhealthy : ErrorKind → Bool
kind_unhealthy ErrorKind.canceled = false
kind_unhealthy invalid_request = false
kind_unhealthy _ = true

-- The two branches on `errors.As`.
unfoldable pub marks_unhealthy : Option ErrorKind → Error → Bool
unfolding kind_unhealthy
marks_unhealthy (some k) e = kind_unhealthy k
marks_unhealthy none e = not (is_error e context_canceled)

module _ {F : Type 0} where
  unfoldable pub fail_stream : ℕ → Error → Source F → Source F × Option Error
  unfolding marks_unhealthy
  fail_stream now e s =
      let s' = record s { metrics = increment_error_count now s.metrics } in
      (
        if marks_unhealthy (as_stream_error e) e
            then record s' { service = set_status unhealthy s'.service }
            else s',
        stream_status (some e),
      )

  unfoldable pub fails : ℕ → Error → Source F → Turn F
  unfolding fail_stream
  fails now e s = let (s', a) = fail_stream now e s in ends s' a

  -- A successful send.
  unfoldable pub count_sent : ℕ → Source F → Source F
  count_sent now s = record s {
    metrics = increment_success_count now (increment_processed_count now s.metrics);
  }

  unfoldable pub ends_by_context : ContextError → Source F → Turn F
  unfolding context_error
  ends_by_context c s = ends s (stream_status (some (context_error c)))

  unfoldable pub terminal_step : Bool → ℕ → Terminal → Option ContextError → Source F → Turn F
  unfolding fails ends_by_context
  terminal_step bounded now absent c s = fails now (plain "missing terminal result") s
  terminal_step bounded now closed_result c s = fails now (plain "missing terminal result") s
  terminal_step bounded now (value e true) c s = fails now (plain "multiple terminal results") s
  terminal_step bounded now (value (some e) false) none s = fails now e s
  terminal_step bounded now (value (some e) false) (some c) s =
      if is_error e context_canceled then ends_by_context c s else fails now e s
  terminal_step bounded now (value none false) c s =
      if bounded
      then ends s none
      else fails now (plain "unbounded producer ended without cancellation") s

  unfoldable pub pick_step : Bool → ℕ → Pick → Source F → Turn F
  unfolding fails count_sent terminal_step ends_by_context
  pick_step bounded now (done c) s = ends_by_context c s
  pick_step bounded now (closed (some c) t c') s = ends_by_context c s
  pick_step bounded now (closed none t c') s = terminal_step bounded now t c' s
  pick_step bounded now (event e (some c) x) s = ends_by_context c s
  pick_step bounded now (event none none x) s = fails now (plain "nil producer event") s
  pick_step bounded now (event (some e) none none) s = sends e (count_sent now s)
  pick_step bounded now (event (some e) none (some x)) s =
      ends s (stream_status (some (classified downstream_unavailable x)))

  -- One turn of the loop.
  unfoldable pub round_step : Bool → Round → Source F → Turn F
  unfolding pick_step
  round_step bounded r s = elim r.context [
    | some c ↦ ends_by_context c s
    | none ↦ pick_step bounded r.now r.pick s
  ]

  -- The loop of streamWithResult. A script that ends leaves the stream running.
  unfoldable pub stream_loop : Bool → List Round → List ℕ → Source F → Streamed F
  stream_loop bounded [] sent s = record { source = s; sent = sent; answer = none }
  stream_loop bounded (r ∷ rs) sent s = elim (round_step bounded r s) [
    | sends e s' ↦ stream_loop bounded rs (sent ++ e ∷ []) s'
    | ends s' a ↦ record { source = s'; sent = sent; answer = some a }
  ]

-- What a producer gives back: which of its channels are not nil.
pub record Produced : Type 0 where
  pub has_events : Bool
  pub has_result : Bool
  pub bounded : Bool

-- The start of a stream: the producer's answer (`good none` is a nil result), and the context then.
pub record Startup : Type 0 where
  pub now : ℕ
  pub produced : Result (Option Produced)
  pub context : Option ContextError

module _ {F : Type 0} where
  unfoldable pub failed_start : ℕ → Error → Source F → Streamed F
  failed_start now e s =
      let (s', a) = fail_stream now e s in record { source = s'; sent = []; answer = some a }

  unfoldable pub start_loop : ℕ → Result (Option Produced) → List Round → Source F → Streamed F
  unfolding failed_start
  start_loop now (bad e) rs s = failed_start now e s
  start_loop now (good none) rs s = failed_start now (plain "producer returned incomplete stream") s
  start_loop now (good (some p)) rs s =
      if p.has_events && p.has_result
      then stream_loop p.bounded rs [] s
      else failed_start now (plain "producer returned incomplete stream") s

  unfoldable pub stream_with_result : Startup → List Round → Source F → Streamed F
  unfolding start_loop
  stream_with_result b rs s = elim b.context [
    | some c ↦ record {
      source = s;
      sent = [];
      answer = some (stream_status (some (context_error c)));
    }
    | none ↦ start_loop b.now b.produced rs s
  ]

-- A turn of the older loop: the context is done, the source was stopped, an event with what Send
-- returns, or the end of the channel.
pub data OldPick : Type 0 where
  old_done : ContextError → OldPick
  old_stopped old_closed : OldPick
  old_event : ℕ → ℕ → Option Error → OldPick

module _ {F : Type 0} where
  unfoldable pub old_step : OldPick → Source F → Turn F
  unfolding count_sent context_error
  old_step (old_done c) s = ends s (some (context_error c))
  old_step old_stopped s = ends s (some (sentinel source_stopped))
  old_step old_closed s = ends s none
  old_step (old_event now e (some x)) s = ends s (some x)
  old_step (old_event now e none) s = sends e (count_sent now s)

  unfoldable pub old_loop : List OldPick → List ℕ → Source F → Streamed F
  old_loop [] sent s = record { source = s; sent = sent; answer = none }
  old_loop (p ∷ ps) sent s = elim (old_step p s) [
    | sends e s' ↦ old_loop ps (sent ++ e ∷ []) s'
    | ends s' a ↦ record { source = s'; sent = sent; answer = some a }
  ]

-- All that happens during one call of StreamEvents.
pub record Script : Type 0 where
  pub startup : Startup
  pub rounds : List Round
  pub old_startup : Option Error
  pub old_picks : List OldPick

module _ {F : Type 0} where
  -- StreamEvents between its locked head and its deferred end.
  unfoldable pub run_producer : Script → Claim → Source F → Streamed F
  unfolding stream_with_result old_loop
  run_producer x c s =
      if is_some c.claimed_stream_producer
      then stream_with_result x.startup x.rounds s
      else if not (is_some c.claimed_producer)
      then answered (sentinel producer_not_set)
      else elim x.old_startup [
        | some e ↦ answered (wrapped "failed to start producer" e)
        | none ↦ old_loop x.old_picks [] s
      ]
    where
      answered : Error → Streamed F
      answered e = record { source = s; sent = []; answer = some (some e) }

  -- The deferred function runs when there is an answer.
  unfoldable pub release : Streamed F → Streamed F
  unfolding end_stream
  release t = elim t.answer [ none ↦ t | some a ↦ record t { source = end_stream t.source } ]

  unfoldable pub stream_events : Script → Source F → Streamed F
  unfolding release begin_stream
  stream_events x s =
      let (s', (e, c)) = begin_stream s in
      elim e [
        | some err ↦ record { source = s'; sent = []; answer = some (some err) }
        | none ↦ release (run_producer x c s')
      ]
