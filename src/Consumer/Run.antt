-- ===== src/Consumer/Run.antt =====
-- Run of pkg/consumer/consumer.go, and GetInfo of pkg/consumer/service.go. `bad` is a log.Fatal. After
-- the service is made, Run serves it until a signal comes, and stops it; with flowctl enabled it
-- announces the component in a goroutine of its own.
pub mod Choices
pub mod Heartbeats
use flowctl_sdk.Base.{
  ℕ, ◌*◌, ◌%◌, ◌^◌, Bool, not, ◌&&◌, List, [], ◌∷◌, Option, none, some, String, ◌<>◌, str_eq,
  if◌then◌else◌, positive64,
}
use flowctl_sdk.Errors.{Error, wrapped, Result, good, bad}
use flowctl_sdk.Flowctl.Controller.{ComponentInfo, component_consumer}
use flowctl_sdk.Consumer.{Consumer, new_consumer_service}
use flowctl_sdk.Consumer.Config.{Config, Environment, get_env, validate}
use flowctl_sdk.Stellar.Names.{to_kebab_case}

-- ConsumerConfig; `has_handler` says that OnEvent is not nil.
pub record ConsumerConfig : Type 0 where
  pub consumer_name : String
  pub input_type : String
  pub input_types : List String
  pub has_handler : Bool
  pub config_path : String
  pub component_id : String
  pub output_type : String

pub record Prepared : Type 0 where
  pub config : Config
  pub input_types : List String
  pub component_id : String
  pub port : String
  pub health_port : String
  pub service : Consumer

-- strings.Join(types, ",").
unfoldable pub join_types : List String → String
join_types [] = ""
join_types (t ∷ []) = t
join_types (t ∷ u ∷ ts) = t <> "," <> join_types (u ∷ ts)

-- `if v != "" { field = v }`, and the choice of a path.
abbrev pub unless_empty : String → String → String
unless_empty v old = if str_eq v "" then old else v

-- `if len(inputTypes) == 0 && cfg.InputType != ""`.
unfoldable pub choose_types : String → List String → List String
choose_types t [] = if str_eq t "" then [] else t ∷ []
choose_types t (u ∷ us) = u ∷ us

unfoldable pub input_of : List String → String → String
unfolding join_types
input_of [] old = old
input_of (t ∷ ts) old = join_types (t ∷ ts)

unfoldable pub name_consumer : ConsumerConfig → List String → Config → Config
unfolding input_of
name_consumer cfg types c = record c {
  consumer = record c.consumer {
    name = unless_empty cfg.consumer_name c.consumer.name;
    input = input_of types c.consumer.input;
    output = unless_empty cfg.output_type c.consumer.output;
  };
}

module _ (w : Environment) where
  unfoldable pub component_id_of : String → String → String
  component_id_of given name = unless_empty given (get_env w "COMPONENT_ID" (to_kebab_case name))

  unfoldable pub prepared : ConsumerConfig → List String → Config → Prepared
  prepared cfg types c = record {
    config = c;
    input_types = types;
    component_id = component_id_of cfg.component_id c.consumer.name;
    port = get_env w "PORT" ":50052";
    health_port = get_env w "HEALTH_PORT" "8089";
    service = new_consumer_service cfg.consumer_name types cfg.has_handler;
  }

  -- `load` is LoadConfig, `decimal` the verb %d.
  unfoldable pub run : (ℕ → String) → (String → Result Config) → ConsumerConfig → Result Prepared
  run decimal load cfg = elim (load (unless_empty cfg.config_path "consumer.yaml")) [
    | bad e ↦ bad (wrapped "Failed to load configuration" e)
    | good c ↦ elim (validate decimal c) [
      | some e ↦ bad (wrapped "Invalid configuration" e)
      | none ↦
          let types = choose_types cfg.input_type cfg.input_types in
          good (prepared cfg types (name_consumer cfg types c))
    ]
  ]

  -- GetInfo of a service that was made with this configuration.
  unfoldable pub get_info : Config → Consumer → ComponentInfo
  get_info c s = record {
    id = get_env w "COMPONENT_ID" (to_kebab_case s.consumer_name);
    name = c.consumer.name;
    description = c.consumer.description;
    version = c.consumer.version;
    component_type = component_consumer;
    endpoint = get_env w "PORT" ":50052";
    input_event_types = s.input_types;
    output_event_types = [];
    metadata = [];
  }

-- The component that is registered.
unfoldable pub component_info : Prepared → ComponentInfo
component_info p = record {
  id = p.component_id;
  name = p.config.consumer.name;
  description = p.config.consumer.description;
  version = p.config.consumer.version;
  component_type = component_consumer;
  endpoint = p.port;
  input_event_types = p.input_types;
  output_event_types = [];
  metadata = ("health_port", p.health_port) ∷ [];
}

-- What becomes of the goroutine: the process ends, NewTicker panics, or heartbeats are sent with a
-- period in nanoseconds.
pub data Announced : Type 0 where
  fatal : Error → Announced
  ticker_panics : Announced
  ticking : ℕ → Announced

-- `time.Duration(interval) * time.Millisecond`, an int64 that wraps around.
unfoldable pub heartbeat_period : ℕ → ℕ
heartbeat_period interval = interval * 1000000 % 2 ^ 64

-- time.NewTicker panics where the period is not positive.
unfoldable pub new_ticker : ℕ → Announced
new_ticker period = if positive64 period then ticking period else ticker_panics

-- `dial` and `register` are the errors of the two calls.
unfoldable pub announce : Option Error → (ComponentInfo → Option Error) → Prepared → Announced
unfolding heartbeat_period new_ticker component_info
announce (some x) register p = fatal (wrapped "Failed to connect to flowctl" x)
announce none register p = elim (register (component_info p)) [
  | some x ↦ fatal (wrapped "Failed to register with flowctl" x)
  | none ↦ new_ticker (heartbeat_period p.config.flowctl.heartbeat_interval)
]
