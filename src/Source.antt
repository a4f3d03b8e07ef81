-- ===== src/Source.antt =====
-- pkg/source: a component that streams events to the pipeline. This file is pkg/source/source.go but
-- for the streams; those are in Source/Stream.antt. A producer is known by a number.
pub mod Config
pub mod Status
pub mod Producers
pub mod Lifecycle
pub mod Stream
use flowctl_sdk.Base.{
  ℕ, Bool, true, false, not, ◌||◌, ◌&&◌, List, [], ◌∷◌, String, ◌<>◌, Option, none, some, is_some,
  if◌then◌else◌,
}
use flowctl_sdk.Errors.{
  Error, sentinel, producer_not_set, producer_conflict, already_streaming, Outcome, returned,
  panicked,
}
use flowctl_sdk.Flowctl.Types as T
use flowctl_sdk.Flowctl.Metrics.{Floats, Metrics, new_standard_metrics}
use flowctl_sdk.Flowctl.Types.{health_status_text}
use flowctl_sdk.Flowctl.Health.{new_health_server, get_health}
use flowctl_sdk.Flowctl.Controller.{Controller, ComponentInfo, component_source, new_controller}
use flowctl_sdk.Service.{Service, Surroundings, start_service, stop_service}
use Config.{Config as SourceConfig, default_config, validate}

pub record Source (F : Type 0) : Type 0 where
  pub config : SourceConfig
  pub producer : Option ℕ
  pub stream_producer : Option ℕ
  pub service : Service F
  pub metrics : Metrics F
  pub streaming : Bool

module _ (fl : Floats) where
  open fl use {F}

  -- `if config.FlowctlConfig != nil && config.FlowctlConfig.Enabled`.
  unfoldable pub controller_of : String → Option T.Config → Option (Controller F)
  controller_of stamp none = none
  controller_of stamp (some f) = if f.enabled then some (new_controller stamp f) else none

  -- `generated` is what generateID gives, `stamp` what generateServiceID appends.
  unfoldable pub new : ℕ → String → String → Option SourceConfig → Source F
  unfolding controller_of
  new now generated stamp given = record {
    config = config;
    producer = none;
    stream_producer = none;
    service = record {
      controller = controller_of stamp config.flowctl_config;
      health = new_health_server now config.health_port;
      sockets = [];
      server = none;
      serving = false;
      started = false;
      stop_closed = false;
    };
    metrics = new_standard_metrics fl now;
    streaming = false;
  }
    where
      config : SourceConfig
      config = validate generated (elim given [ none ↦ default_config | some c ↦ c ])

-- The producers that a stream works with, as they were when it began.
pub record Claim : Type 0 where
  pub claimed_producer : Option ℕ
  pub claimed_stream_producer : Option ℕ

module _ {F : Type 0} where
  unfoldable pub on_produce : Option ℕ → Source F → Source F × Option Error
  on_produce none s = (s, some (sentinel producer_not_set))
  on_produce (some p) s =
      if is_some s.stream_producer
      then (s, some (sentinel producer_conflict))
      else (record s { producer = some p }, none)

  unfoldable pub on_produce_stream : Option ℕ → Source F → Source F × Option Error
  on_produce_stream none s = (s, some (sentinel producer_not_set))
  on_produce_stream (some p) s =
      if is_some s.producer
      then (s, some (sentinel producer_conflict))
      else (record s { stream_producer = some p }, none)

  unfoldable pub start : Surroundings → Source F → Source F × Outcome
  start w s =
      if s.service.started
      then (s, returned none)
      else if not (is_some s.producer) && not (is_some s.stream_producer)
      then (s, returned (some (sentinel producer_not_set)))
      else let (t, o) = start_service w s.config.endpoint s.service in (record s { service = t }, o)

  unfoldable pub stop : Surroundings → Source F → Source F × Outcome
  stop w s = let (t, o) = stop_service w s.service in (record s { service = t }, o)

  -- The locked part at the head of StreamEvents, and its deferred function.
  unfoldable pub begin_stream : Source F → Source F × (Option Error × Claim)
  begin_stream s =
      if s.streaming
      then (s, (some (sentinel already_streaming), claim))
      else (record s { streaming = true }, (none, claim))
    where
      claim : Claim
      claim = record { claimed_producer = s.producer; claimed_stream_producer = s.stream_producer }

  unfoldable pub end_stream : Source F → Source F
  end_stream s = record s { streaming = false }

  -- `decimal` is the verb %d.
  unfoldable pub get_info : (ℕ → String) → Source F → ComponentInfo
  get_info decimal s = record {
    id = s.config.id;
    name = s.config.name;
    description = s.config.description;
    version = s.config.version;
    component_type = component_source;
    endpoint = s.config.endpoint;
    input_event_types = [];
    output_event_types = s.config.output_event_types;
    metadata = ("buffer_size", decimal s.config.buffer_size) ∷ [];
  }

  -- The status and the message of HealthCheck. `status_value` is the generated table
  -- HealthStatus_value, 0 where it has no entry.
  unfoldable pub health_check : (String → ℕ) → Source F → ℕ × String
  health_check status_value s =
      let status = health_status_text (get_health s.service.health) in
      (status_value status, "Source " <> s.config.id <> " is " <> status)
