-- ===== src/Examples/Source.antt =====
-- The theorems on pkg/source at concrete inputs.
use flowctl_sdk.Base.{
  ℕ, ◌≤◌, ◌≡◌, ◌≢◌, ◌↔◌, ◌⊎◌, inr, refl, true, false, List, [], ◌∷◌, none, some, arith, length,
}
use flowctl_sdk.Errors.{
  Error, plain, sentinel, classified, invalid_request, upstream_unavailable, as_stream_error,
  is_error, context_canceled, context_deadline_exceeded, producer_not_set, already_streaming, good,
  returned, panicked,
}
use flowctl_sdk.Flowctl.Controller.{Controller, new_controller, source_info}
use flowctl_sdk.Flowctl.Metrics.{new_standard_metrics}
use flowctl_sdk.Flowctl.Health.{new_health_server}
use flowctl_sdk.Service.{Service, Surroundings, launch}
use flowctl_sdk.Service.Down.{IsDown}
use flowctl_sdk.Service.Steps.{IsSound}
use flowctl_sdk.Service.Restart.{IsUp}
use flowctl_sdk.Service.Retry.{HasShut, HasArmed}
use flowctl_sdk.Source.{Source, begin_stream, start, stop}
use flowctl_sdk.Source.Config as C
use flowctl_sdk.Source.Config.{default_config, validate}
use flowctl_sdk.Source.Status.{stream_status, IsPublic, stream_status_hides_cause}
use flowctl_sdk.Source.Lifecycle.{
  start_outcomes, stop_outcomes, restarted-stop_panics, retried-stop_panics,
}
use flowctl_sdk.Source.Stream.{Round, event, closed, value, Script, stream_loop, stream_events}
use flowctl_sdk.Source.Stream.Delivery.{Completes, stream_ok_iff}
use flowctl_sdk.Source.Stream.Counts.{Counted, Answered, stream_counts}
use flowctl_sdk.Source.Stream.Failures.{HealthAfter, cause, stream_health}
use flowctl_sdk.Source.Stream.Exclusion as X
use flowctl_sdk.Source.Stream.Exclusion.{Busy, one_stream, stream_events_flag}
use flowctl_sdk.Examples.{floats, flowctl_config, surroundings, taken, idle_service}

-- A source with a stream producer that has not been started.
unfoldable ledgers : Source ℕ
ledgers = record {
  config = default_config;
  producer = none;
  stream_producer = some 1;
  service = idle_service;
  metrics = new_standard_metrics floats 0;
  streaming = false;
}

abbrev sends : ℕ → Round
sends e = record { now = e; context = none; pick = event (some e) none none }

-- Two events and a nil result; an event that cannot be sent; a failure of the producer.
abbrev whole : List Round
whole =
    sends 4
    ∷ sends 5
    ∷ record { now = 6; context = none; pick = closed none (value none false) none }
    ∷ []

abbrev broken : List Round
broken =
    sends 4
    ∷ record {
      now = 5;
      context = none;
      pick =
          closed none (value (some (classified upstream_unavailable (plain "secret"))) false) none;
    }
    ∷ []

stream_ok_iff_example :
    let t = stream_loop true whole [] ledgers in
    (t.answer ≡ some none) ↔ Completes true whole t.sent
stream_ok_iff_example = stream_ok_iff true whole ledgers

stream_counts_example :
    let t = stream_loop true broken [] ledgers in
    (f : ℕ) × Counted ledgers t.source (length t.sent) f × Answered f t.answer
stream_counts_example = stream_counts true broken ledgers

stream_health_example :
    let t = stream_loop true broken [] ledgers in
    HealthAfter (cause true broken) ledgers.service t.answer t.source.service
stream_health_example = stream_health true broken [] ledgers

abbrev script : Script
script = record {
  startup = record {
    now = 3;
    produced = good (some (record { has_events = true; has_result = true; bounded = true }));
    context = none;
  };
  rounds = whole;
  old_startup = none;
  old_picks = [];
}

stream_events_flag_example :
    (ledgers.streaming ≡ true
      → stream_events script ledgers
        ≡ record { source = ledgers; sent = []; answer = some (some (sentinel already_streaming)) })
    × (ledgers.streaming ≡ false
        → let t = stream_events script ledgers in
          (t.answer ≡ none → t.source.streaming ≡ true)
          × (t.answer ≢ none → t.source.streaming ≡ false))
stream_events_flag_example = stream_events_flag script ledgers

abbrev free : Busy ℕ
free = record { source = ledgers; active = 0 }

one_stream_example :
    let c : Busy ℕ = record { source = record ledgers { streaming = true }; active = 1 } in
    (c.active ≤ 1) × X.IsCounted c
unfolding ledgers begin_stream
one_stream_example =
    one_stream {b = free} {c = record { source = record ledgers { streaming = true }; active = 1 }}
      refl (X.next X.here (X.enters _ _ refl))

sound : IsSound ledgers.service
unfolding ledgers idle_service new_health_server
sound = record { owns = record { same = refl; exact = refl }; able = refl }

start_outcomes_example :
    let launched =
      (launch taken ledgers.config.endpoint (record ledgers.service { started = true })).0 in
    (ledgers.service.started ≡ true → start taken ledgers ≡ (ledgers, returned none))
    × (ledgers.service.started ≡ false
        → ledgers.producer ≡ none
        → ledgers.stream_producer ≡ none
        → start taken ledgers ≡ (ledgers, returned (some (sentinel producer_not_set))))
    × (ledgers.service.started ≡ false
        → (start taken ledgers).1 ≡ returned none
        → IsUp (start taken ledgers).0.service × ((start taken ledgers).0.service.started ≡ true))
    × ((x : Error)
        → ledgers.service.started ≡ false
        → (ledgers.producer ≢ none) ⊎ (ledgers.stream_producer ≢ none)
        → (start taken ledgers).1 ≡ returned (some x)
        → IsDown (start taken ledgers).0.service
          × ((c : Controller ℕ)
              → launched.controller ≡ some c
              → c.config.enabled ≡ true
              → c.heartbeat_running ≡ true
              → HasShut (start taken ledgers).0.service.controller))
    × ((start taken ledgers).1 ≡ panicked
        → HasArmed launched.controller × ((start taken ledgers).0.service.started ≡ true))
start_outcomes_example = start_outcomes taken ledgers sound

stop_outcomes_example :
    (ledgers.service.started ≡ false → stop surroundings ledgers ≡ (ledgers, returned none))
    × (ledgers.service.started ≡ true
        → ((stop surroundings ledgers).1 ≡ panicked)
          ⊎ (((stop surroundings ledgers).1 ≡ returned none)
              × IsDown (stop surroundings ledgers).0.service
              × ((stop surroundings ledgers).0.service.stop_closed ≡ true)
              × (ledgers.service.server ≢ none
                  → (stop surroundings ledgers).0.service.serving ≡ false)))
stop_outcomes_example = stop_outcomes surroundings ledgers sound

abbrev started : Source ℕ
started = (start surroundings ledgers).0

restarted-stop_panics_example :
    (stop surroundings (start surroundings (stop surroundings started).0).0).1 ≡ panicked
unfolding start stop ledgers idle_service new_health_server flowctl_sdk.Service.start_service launch
    flowctl_sdk.Service.start_health flowctl_sdk.Flowctl.Health.start flowctl_sdk.Service.set_status
    flowctl_sdk.Service.register_controller flowctl_sdk.Flowctl.Controller.register
    flowctl_sdk.Service.start_controller flowctl_sdk.Flowctl.Controller.start
    flowctl_sdk.Service.listen flowctl_sdk.Service.mark_healthy flowctl_sdk.Service.stop_service
    flowctl_sdk.Service.stop_controller flowctl_sdk.Flowctl.Controller.stop
    flowctl_sdk.Service.stop_health flowctl_sdk.Flowctl.Health.stop
restarted-stop_panics_example =
    restarted-stop_panics surroundings started surroundings surroundings refl refl
      (inr (λ q. ground arith)) refl

retried-stop_panics_example :
    (stop surroundings (start surroundings (start taken ledgers).0).0).1 ≡ panicked
unfolding start stop ledgers idle_service new_health_server flowctl_sdk.Service.start_service launch
    flowctl_sdk.Service.start_health flowctl_sdk.Flowctl.Health.start flowctl_sdk.Service.set_status
    flowctl_sdk.Service.register_controller flowctl_sdk.Flowctl.Controller.register
    flowctl_sdk.Service.start_controller flowctl_sdk.Flowctl.Controller.start
    flowctl_sdk.Service.listen flowctl_sdk.Service.mark_healthy flowctl_sdk.Service.stop_service
    flowctl_sdk.Service.stop_controller flowctl_sdk.Flowctl.Controller.stop
    flowctl_sdk.Service.stop_health flowctl_sdk.Flowctl.Health.stop
retried-stop_panics_example =
    retried-stop_panics taken ledgers surroundings surroundings _ _ refl (inr (λ q. ground arith))
      refl refl refl refl refl

stream_status_hides_cause_example :
    let e = classified invalid_request (plain "password") in
    ((p : Error) × (stream_status (some e) ≡ some p) × IsPublic p)
    × ((f : Error)
        → as_stream_error e ≡ as_stream_error f
        → is_error e context_canceled ≡ is_error f context_canceled
        → is_error e context_deadline_exceeded ≡ is_error f context_deadline_exceeded
        → stream_status (some e) ≡ stream_status (some f))
stream_status_hides_cause_example =
    stream_status_hides_cause (classified invalid_request (plain "password"))

abbrev config : C.Config
config = record default_config { flowctl_config = some flowctl_config }
