-- ===== src/Examples.antt =====
-- Concrete inputs, and in the children the theorems of the library at such inputs.
pub mod Flowctl
pub mod Source
pub mod Processor
pub mod Consumer
pub mod Reporter
pub mod Stellar
pub mod Invocations
pub mod Ledgers
pub mod ContractEvents
pub mod Sink
use flowctl_sdk.Base.{ℕ, ◌+◌, ◌-◌, ◌/◌, true, false, [], ◌∷◌, none, some, String}
use flowctl_sdk.Errors.{Error, plain, good, bad}
use flowctl_sdk.Flowctl.Types.{Config, ServiceType}
use flowctl_sdk.Flowctl.Metrics.{Floats}
use flowctl_sdk.Flowctl.Health.{new_health_server}
use flowctl_sdk.Flowctl.Controller.{ControlPlane, Controller, new_controller}
use flowctl_sdk.Service.{Service, Surroundings}

-- Whole numbers in place of floats.
abbrev pub floats : Floats
floats = record {
  F = ℕ;
  zero_f = 0;
  from_ms = λ n. n;
  half_sum = λ a b. (a + b) / 2;
  seconds_since = λ a b. b - a;
}

abbrev pub flowctl_config : Config
flowctl_config = record {
  enabled = true;
  endpoint = "localhost:8080";
  service_id = "";
  service_type = ServiceType.source;
  heartbeat_interval = 0;
  input_event_types = [];
  output_event_types = "ledger" ∷ [];
  metadata = [];
}

-- A control plane that accepts every component, and one that refuses them all.
abbrev pub plane : ControlPlane
plane = record {
  dial = λ e. good 1;
  register_component = λ conn info. good "svc-1";
  close = λ conn. none;
}

abbrev pub refusing : ControlPlane
refusing = record plane { register_component = λ conn info. bad (plain "refused") }

abbrev pub controller : Controller ℕ
controller = record {
  config = record flowctl_config { service_id = "source-7"; heartbeat_interval = 30 };
  service_id = "source-7";
  conn = none;
  stop_closed = false;
  heartbeat_running = false;
  custom_metrics = [];
  loops = 0;
  crashed = false;
}

-- The ports are free, or that of the gRPC server is taken.
abbrev pub surroundings : Surroundings
surroundings = record { health_listen = good 7; plane = plane; listen = good 9; shutdown = none }

abbrev pub taken : Surroundings
taken = record surroundings { listen = bad (plain "address already in use") }

unfoldable pub idle_service : Service ℕ
idle_service = record {
  controller = some controller;
  health = new_health_server 0 8088;
  sockets = [];
  server = none;
  serving = false;
  started = false;
  stop_closed = false;
}
