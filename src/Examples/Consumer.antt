-- ===== src/Examples/Consumer.antt =====
-- The theorems on pkg/consumer at concrete inputs.
use flowctl_sdk.Base.{
  ℕ, ◌+◌, ◌*◌, ltb, ◌<◌, ◌≡◌, ◌⊎◌, refl, true, false, List, [], ◌∷◌, Option, none, some,
  if◌then◌else◌, ◌==◌, arith,
}
use flowctl_sdk.Errors.{
  Error, is_error, is_eof, Code, status, plain, sentinel, io_eof, Result, good, bad,
}
use flowctl_sdk.Base.Dict.{get}
use flowctl_sdk.Protocol.{Event}
use flowctl_sdk.Consumer.{Consumer, new_consumer_service, stop}
use flowctl_sdk.Consumer.Config.{default_config}
use flowctl_sdk.Consumer.Run.{Prepared, announce, ticking, ticker_panics}
use flowctl_sdk.Consumer.Run.Heartbeats.{announce_interval}
use flowctl_sdk.Consumer.Stream.{Round, is_filtered, free, consume}
use flowctl_sdk.Consumer.Stream.Acknowledged.{
  Drains, at_eof, skipped, handled, unhandled, response, closing, consume_acknowledged,
}
use flowctl_sdk.Consumer.Stream.Drained.{Counts, consume_drained}
use flowctl_sdk.Consumer.Stream.Counters.{IsConsistent, created, streamed, stopped, counters_agree}

-- The conversion of a context's error.
abbrev from_context_error : Error → Error
from_context_error e = status Code.canceled "context"

unfoldable sink : Consumer
sink = record {
  consumer_name = "sink";
  input_types = "row" ∷ [];
  input_type_set = ("row", true) ∷ [];
  has_handler = true;
  stop_closed = false;
  events_consumed = 0;
  events_failed = 0;
  error_count = 0;
  success_count = 0;
}

-- The callback fails for the body 13.
abbrev round : Result (Option Event) → Round
round r = record {
  head = free;
  receive = free;
  received = r;
  after_receive = free;
  handle = λ e. if e.body == 13 then some (plain "password") else none;
  handling = free;
  after_handling = free;
  send_and_close = none;
}

abbrev row : ℕ → Event
row n = record { event_type = "row"; body = n }

abbrev other : Event
other = record { event_type = "other"; body = 0 }

abbrev whole : List Round
whole =
    round (good (some (row 1)))
    ∷ round (good (some other))
    ∷ round (good (some (row 13)))
    ∷ round (bad (sentinel io_eof))
    ∷ []

consume_acknowledged_example :
    (n : ℕ) × (m : ℕ) × (k : ℕ) × Drains sink.input_type_set sink.has_handler whole n m k none
    × (response 1 1 ≡ response n m)
    × ((k ≡ 0) ⊎ (0 < n + m))
unfolding sink consume get is_error is_eof
consume_acknowledged_example =
    consume_acknowledged from_context_error whole sink (response 1 1) none (omega arith) refl

drained : Drains sink.input_type_set sink.has_handler whole 1 1 1 none
unfolding sink is_filtered get is_error is_eof
drained =
    handled (round (good (some (row 1)))) (row 1) ((refl, refl, refl, refl), refl, refl, refl) refl
      refl
      (skipped (round (good (some other))) other (refl, refl, refl, refl) refl
        (unhandled (round (good (some (row 13)))) (row 13) (plain "password")
          ((refl, refl, refl, refl), refl, refl, refl) refl refl refl
          (at_eof (round (bad (sentinel io_eof))) [] (sentinel io_eof) (refl, refl, refl, refl)
            refl)))

consume_drained_example :
    ((consume from_context_error whole sink).1 ≡ some (closing 1 1 1 none))
    × Counts sink (consume from_context_error whole sink).0 1 1
consume_drained_example = consume_drained from_context_error sink (omega arith) drained

counters_agree_example :
    IsConsistent
      (stop (consume from_context_error whole (new_consumer_service "sink" ("row" ∷ []) true)).0)
counters_agree_example =
    counters_agree from_context_error (stopped (streamed whole (created "sink" ("row" ∷ []) true)))

abbrev ran : Prepared
ran = record {
  config = default_config;
  input_types = "row" ∷ [];
  component_id = "sink";
  port = ":50052";
  health_port = "8089";
  service = sink;
}

announce_interval_example : announce none (λ i. none) ran ≡ (
    if ltb ran.config.flowctl.heartbeat_interval 9223372036855
    then ticking (ran.config.flowctl.heartbeat_interval * 1000000)
    else ticker_panics)
unfolding default_config
announce_interval_example = announce_interval (λ i. none) ran refl (omega arith) (omega arith)
