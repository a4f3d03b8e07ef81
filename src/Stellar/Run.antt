-- ===== src/Stellar/Run.antt =====
-- Run and RunTransform of pkg/stellar/stellar.go and pkg/stellar/transform.go, up to the processor
-- that they make: `bad` is a log.Fatal. After it they start the processor of Processor.antt, wait for a
-- signal and stop it.
use flowctl_sdk.Base.{
  ℕ, Bool, true, not, [], ◌∷◌, Option, none, some, String, str_eq, if◌then◌else◌,
}
use flowctl_sdk.Errors.{plain, wrapped, Result, good, bad}
use flowctl_sdk.Consumer.Config.{Environment, FlowctlConfig, get_env}
use flowctl_sdk.Flowctl.Types as T
use flowctl_sdk.Processor.Config as P
use flowctl_sdk.Stellar.Config.{Config, validate}
use flowctl_sdk.Stellar.Names.{to_kebab_case}

-- ProcessorConfig, but for the user's function.
pub record ProcessorConfig : Type 0 where
  pub processor_name : String
  pub output_type : String
  pub config_path : String
  pub component_id : String

-- TransformConfig; `has_transform` says that the user's function is not nil.
pub record TransformConfig : Type 0 where
  pub processor_name : String
  pub input_type : String
  pub output_type : String
  pub has_transform : Bool
  pub config_path : String
  pub component_id : String

-- What the handler and the processor are made of.
pub record Prepared : Type 0 where
  pub config : Config
  pub component_id : String
  pub proc_config : P.Config

-- `if config.Flowctl.Enabled { … }` on the default's FlowctlConfig.
unfoldable pub with_flowctl : FlowctlConfig → Option T.Config → Option T.Config
with_flowctl f none = none
with_flowctl f (some t) =
    if f.enabled
    then some (record t {
      enabled = true;
      endpoint = f.endpoint;
      heartbeat_interval = f.heartbeat_interval;
    })
    else some t

-- `if v != "" { field = v }`, and the choice of a path.
abbrev pub unless_empty : String → String → String
unless_empty v old = if str_eq v "" then old else v

unfoldable pub name_processor : String → Config → Config
name_processor name c = record c {
  processor = record c.processor { name = unless_empty name c.processor.name };
}

unfoldable pub name_output : String → Config → Config
name_output output c = record c {
  processor = record c.processor { output = unless_empty output c.processor.output };
}

-- `scan_int` is fmt.Sscanf with the verb %d, which leaves 0 where there is no number.
module _ (w : Environment) (scan_int : String → ℕ) where
  unfoldable pub component_id_of : String → Config → String
  component_id_of given c =
      unless_empty given (get_env w "COMPONENT_ID" (to_kebab_case c.processor.name))

  unfoldable pub processor_config : String → String → Config → String → P.Config
  processor_config input output c id = record P.default_config {
    id = id;
    name = c.processor.name;
    description = c.processor.description;
    version = c.processor.version;
    endpoint = get_env w "PORT" ":50051";
    health_port = scan_int (get_env w "HEALTH_PORT" "8088");
    input_event_types = input ∷ [];
    output_event_types = output ∷ [];
    flowctl_config = with_flowctl c.flowctl P.default_config.flowctl_config;
  }

  unfoldable pub prepared : String → String → String → Config → Prepared
  prepared input output given c = record {
    config = c;
    component_id = component_id_of given c;
    proc_config = processor_config input output c (component_id_of given c);
  }

  -- `load` is LoadConfig, `decimal` the verb %d.
  unfoldable pub run : (ℕ → String) → (String → Result Config) → ProcessorConfig → Result Prepared
  run decimal load cfg = elim (load (unless_empty cfg.config_path "processor.yaml")) [
    | bad e ↦ bad (wrapped "Failed to load configuration" e)
    | good c ↦ elim (validate decimal c) [
      | some e ↦ bad (wrapped "Invalid configuration" e)
      | none ↦ good (
          prepared "stellar.ledger.v1" cfg.output_type cfg.component_id
            (name_output cfg.output_type (name_processor cfg.processor_name c)))
    ]
  ]

  -- RunTransform from its LoadConfig on.
  unfoldable pub load_transform : (String → Result Config) → TransformConfig → Result Prepared
  load_transform load cfg = elim (load (unless_empty cfg.config_path "processor.yaml")) [
    | bad e ↦ bad (wrapped "Failed to load configuration" e)
    | good c ↦ good (
        prepared cfg.input_type cfg.output_type cfg.component_id
          (name_processor cfg.processor_name c))
  ]

  unfoldable pub run_transform : (String → Result Config) → TransformConfig → Result Prepared
  run_transform load cfg =
      if str_eq cfg.input_type ""
      then bad (plain "RunTransform requires a non-empty InputType")
      else if str_eq cfg.output_type ""
      then bad (plain "RunTransform requires a non-empty OutputType")
      else if not cfg.has_transform
      then bad (plain "RunTransform requires a non-nil Transform function")
      else load_transform load cfg
