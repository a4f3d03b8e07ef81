-- ===== src/Stellar/Config.antt =====
-- pkg/stellar/config.go, as pkg/consumer/config.go in Consumer/Config.antt: the same parameters stand
-- for the file, its YAML reader, the environment and the parsers, and the overrides of a text, a flag
-- and a duration are written in the same words.
use flowctl_sdk.Base.{
  ℕ, ◌*◌, Bool, true, false, not, ◌&&◌, ◌||◌, List, [], Option, none, some, String, ◌<>◌, str_eq,
  if◌then◌else◌, positive64,
}
use flowctl_sdk.Errors.{Error, plain, wrapped, Result, good, bad}
use flowctl_sdk.Consumer.Config.{
  Environment, MetricsConfig, FlowctlConfig, text_override, duration_override, flag_override,
}

pub record YamlProcessorConfig : Type 0 where
  pub name : String
  pub version : String
  pub description : String
  pub input : String
  pub output : String

pub record FilterConfig : Type 0 where
  pub enabled : Bool
  pub event_types : List String
  pub min_amount : Option ℕ
  pub contract_ids : List String

pub record BatchConfig : Type 0 where
  pub enabled : Bool
  pub size : ℕ
  pub timeout : ℕ
  pub mode : String

pub record Config : Type 0 where
  pub processor : YamlProcessorConfig
  pub filter : FilterConfig
  pub batch : BatchConfig
  pub metrics : MetricsConfig
  pub flowctl : FlowctlConfig
  pub health_port : ℕ
  pub passphrase : String

unfoldable pub default_config : Config
default_config = record {
  processor = record {
    name = "Stellar Processor";
    version = "1.0.0";
    description = "Processes Stellar ledger data";
    input = "stellar.ledger.v1";
    output = "stellar.token.transfer.v1";
  };
  filter = record { enabled = false; event_types = []; min_amount = none; contract_ids = [] };
  batch = record { enabled = false; size = 10; timeout = 5 * 1000000000; mode = "synchronous" };
  metrics = record { enabled = true; dimensional = true };
  flowctl = record {
    enabled = false;
    endpoint = "localhost:8080";
    heartbeat_interval = 10 * 1000000000;
  };
  health_port = 8088;
  passphrase = "";
}

module _ (w : Environment) where
  open w use {getenv}

  -- `if v := os.Getenv(key); v != "" { enabled = true }`.
  unfoldable pub enabling : String → Bool → Bool
  enabling key old = if str_eq (getenv key) "" then old else true

  unfoldable pub name_override : String → String
  name_override old =
      if str_eq (getenv "COMPONENT_ID") ""
      then old
      else if str_eq old "Stellar Processor"
      then getenv "COMPONENT_ID"
      else old

  unfoldable pub apply_env_overrides : Config → Config
  unfolding enabling name_override text_override duration_override flag_override
  apply_env_overrides c = record c {
    processor = record c.processor { name = name_override c.processor.name };
    passphrase = text_override w "NETWORK_PASSPHRASE" c.passphrase;
    flowctl = record {
      enabled = flag_override w "ENABLE_FLOWCTL" "true" true c.flowctl.enabled;
      endpoint = text_override w "FLOWCTL_ENDPOINT" c.flowctl.endpoint;
      heartbeat_interval =
          duration_override w "FLOWCTL_HEARTBEAT_INTERVAL" c.flowctl.heartbeat_interval;
    };
    filter = record c.filter {
      enabled =
          enabling "FILTER_CONTRACT_IDS"
            (enabling "MIN_AMOUNT" (enabling "FILTER_EVENT_TYPES" c.filter.enabled));
    };
    batch = record c.batch {
      enabled = flag_override w "ENABLE_BATCHING" "true" true c.batch.enabled;
    };
    metrics = record c.metrics {
      enabled = flag_override w "ENABLE_METRICS" "false" false c.metrics.enabled;
    };
  }

  unfoldable pub load_config :
      (String → Bool)
      → (String → Result String)
      → (String → Config → Result Config)
      → String
      → Result Config
  unfolding apply_env_overrides
  load_config stat read unmarshal path =
      if str_eq path "" || not (stat path)
      then good (apply_env_overrides default_config)
      else elim (read path) [
        | bad e ↦ bad (wrapped "failed to read config file" e)
        | good text ↦ elim (unmarshal text default_config) [
          | bad e ↦ bad (wrapped "failed to parse config file" e)
          | good c ↦ good (apply_env_overrides c)
        ]
      ]

-- `decimal` is the verb %d.
unfoldable pub validate : (ℕ → String) → Config → Option Error
validate decimal c =
    if str_eq c.passphrase ""
    then some (plain "NETWORK_PASSPHRASE environment variable is required")
    else if c.batch.enabled
        && (not (str_eq c.batch.mode "synchronous") && not (str_eq c.batch.mode "parallel"))
    then some (plain ("batch mode must be 'synchronous' or 'parallel', got: " <> c.batch.mode))
    else if c.batch.enabled && not (positive64 c.batch.size)
    then some (plain ("batch size must be positive, got: " <> decimal c.batch.size))
    else none
