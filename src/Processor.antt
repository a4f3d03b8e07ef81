-- ===== src/Processor.antt =====
-- pkg/processor: a component that turns each event into another. This file is
-- pkg/processor/processor.go but for its streams; those are in Processor/Stream.antt.
pub mod Config
pub mod Handler
pub mod Lifecycle
pub mod Stream
use flowctl_sdk.Base.{ℕ, false, List, [], ◌∷◌, String, ◌<>◌, Option, none, some, if◌then◌else◌}
use flowctl_sdk.Base.Dict.{Dict, get}
use flowctl_sdk.Errors.{Outcome, returned}
use flowctl_sdk.Flowctl.Types as T
use flowctl_sdk.Flowctl.Types.{health_status_text}
use flowctl_sdk.Flowctl.Metrics.{Floats, Metrics, new_standard_metrics}
use flowctl_sdk.Flowctl.Health.{new_health_server, get_health}
use flowctl_sdk.Flowctl.Controller.{Controller, ComponentInfo, component_processor, new_controller}
use flowctl_sdk.Service.{Service, Surroundings, start_service, stop_service}
use Config.{Config as ProcessorConfig, default_config, validate}
use Handler.{
  Handler as EventHandler, Registry, new_registry, register, get_all_input_types,
  get_all_output_types,
}

pub record Processor (F : Type 0) : Type 0 where
  pub config : ProcessorConfig
  pub registry : Registry
  pub service : Service F
  pub metrics : Metrics F

module _ (fl : Floats) where
  open fl use {F}

  -- `if config.FlowctlConfig != nil && config.FlowctlConfig.Enabled`.
  unfoldable pub controller_of : String → Option T.Config → Option (Controller F)
  controller_of stamp none = none
  controller_of stamp (some f) = if f.enabled then some (new_controller stamp f) else none

  -- `generated` is what generateID gives, `stamp` what generateServiceID appends.
  unfoldable pub new : ℕ → String → String → Option ProcessorConfig → Processor F
  unfolding controller_of
  new now generated stamp given = record {
    config = config;
    registry = new_registry;
    service = record {
      controller = controller_of stamp config.flowctl_config;
      health = new_health_server now config.health_port;
      sockets = [];
      server = none;
      serving = false;
      started = false;
      stop_closed = false;
    };
    metrics = new_standard_metrics fl now;
  }
    where
      config : ProcessorConfig
      config = validate generated (elim given [ none ↦ default_config | some c ↦ c ])

module _ {F : Type 0} where
  unfoldable pub register_handler : EventHandler → Processor F → Processor F
  register_handler h p = record p { registry = register h p.registry }

  -- OnProcess: `key` stands for the pointer that NewHandler returns.
  unfoldable pub on_process : ℕ → List String → List String → Processor F → Processor F
  unfolding register_handler
  on_process key inputs outputs p =
      register_handler (record { key = key; input_types = inputs; output_types = outputs }) p

  unfoldable pub start : Surroundings → Processor F → Processor F × Outcome
  start w p =
      if p.service.started
      then (p, returned none)
      else let (t, o) = start_service w p.config.endpoint p.service in (record p { service = t }, o)

  unfoldable pub stop : Surroundings → Processor F → Processor F × Outcome
  stop w p = let (t, o) = stop_service w p.service in (record p { service = t }, o)

  -- `decimal` is the verb %d.
  unfoldable pub get_info : (ℕ → String) → Processor F → ComponentInfo
  get_info decimal p = record {
    id = p.config.id;
    name = p.config.name;
    description = p.config.description;
    version = p.config.version;
    component_type = component_processor;
    endpoint = p.config.endpoint;
    input_event_types = get_all_input_types p.registry;
    output_event_types = get_all_output_types p.registry;
    metadata = ("max_concurrent", decimal p.config.max_concurrent) ∷ [];
  }

  -- The status and the message of HealthCheck. `status_value` is the generated table
  -- HealthStatus_value, 0 where it has no entry.
  unfoldable pub health_check : (String → ℕ) → Processor F → ℕ × String
  health_check status_value p =
      let status = health_status_text (get_health p.service.health) in
      (status_value status, "Processor " <> p.config.id <> " is " <> status)
