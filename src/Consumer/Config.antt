-- ===== src/Consumer/Config.antt =====
-- pkg/consumer/config.go. An `int` and a `time.Duration` are their 64-bit patterns. The file, its YAML
-- reader, the environment and the parsers of numbers and durations are parameters.
pub mod Overrides
pub mod Kebab
use flowctl_sdk.Base.{
  ℕ, ◌+◌, ◌*◌, ◌≡◌, Bool, true, false, not, ◌&&◌, ◌||◌, List, [], ◌∷◌, Option, none, some, or_else,
  String, ◌<>◌, str_eq, if◌then◌else◌, ltb, leb, ◌==◌, positive64, negative64,
}
use flowctl_sdk.Errors.{Error, plain, wrapped, Result, good, bad}

pub record YamlConsumerConfig : Type 0 where
  pub name : String
  pub version : String
  pub description : String
  pub input : String
  pub output : String

pub record DatabaseConfig : Type 0 where
  pub host : String
  pub port : ℕ
  pub database : String
  pub user : String
  pub password : String
  pub ssl_mode : String
  pub max_open_conns : ℕ
  pub max_idle_conns : ℕ
  pub connect_timeout : ℕ

pub record BatchConfig : Type 0 where
  pub enabled : Bool
  pub size : ℕ
  pub timeout : ℕ

pub record MetricsConfig : Type 0 where
  pub enabled : Bool
  pub dimensional : Bool

pub record FlowctlConfig : Type 0 where
  pub enabled : Bool
  pub endpoint : String
  pub heartbeat_interval : ℕ

pub record Config : Type 0 where
  pub consumer : YamlConsumerConfig
  pub database : DatabaseConfig
  pub batch : BatchConfig
  pub metrics : MetricsConfig
  pub flowctl : FlowctlConfig
  pub health_port : ℕ

unfoldable pub default_config : Config
default_config = record {
  consumer = record {
    name = "Consumer";
    version = "1.0.0";
    description = "Consumes events from the pipeline";
    input = "stellar.contract.events.v1";
    output = "";
  };
  database = record {
    host = "localhost";
    port = 5432;
    database = "stellar_events";
    user = "postgres";
    password = "";
    ssl_mode = "disable";
    max_open_conns = 25;
    max_idle_conns = 5;
    connect_timeout = 10;
  };
  batch = record { enabled = false; size = 10; timeout = 5 * 1000000000 };
  metrics = record { enabled = true; dimensional = true };
  flowctl = record {
    enabled = false;
    endpoint = "localhost:8080";
    heartbeat_interval = 10 * 1000000000;
  };
  health_port = 8089;
}

-- os.Getenv, which is "" for a missing variable; strconv.Atoi and time.ParseDuration, `none` on an
-- error.
pub record Environment : Type 0 where
  pub getenv : String → String
  pub atoi : String → Option ℕ
  pub parse_duration : String → Option ℕ

module _ (w : Environment) where
  open w use {getenv, atoi, parse_duration}

  -- `if v := os.Getenv(key); v != "" { field = v }`.
  unfoldable pub text_override : String → String → String
  text_override key old = if str_eq (getenv key) "" then old else getenv key

  -- The same with strconv.Atoi.
  unfoldable pub int_override : String → ℕ → ℕ
  int_override key old =
      if str_eq (getenv key) "" then old else elim (atoi (getenv key)) [ none ↦ old | some n ↦ n ]

  -- The same with time.ParseDuration.
  unfoldable pub duration_override : String → ℕ → ℕ
  duration_override key old =
      if str_eq (getenv key) ""
      then old
      else elim (parse_duration (getenv key)) [ none ↦ old | some n ↦ n ]

  -- `if v := os.Getenv(key); v == text { field = value }`.
  unfoldable pub flag_override : String → String → Bool → Bool → Bool
  flag_override key text value old = if str_eq (getenv key) text then value else old

  unfoldable pub name_override : String → String
  name_override old =
      if str_eq (getenv "COMPONENT_ID") ""
      then old
      else if str_eq old "Consumer"
      then getenv "COMPONENT_ID"
      else old

  unfoldable pub apply_env_overrides : Config → Config
  unfolding text_override int_override duration_override flag_override name_override
  apply_env_overrides c = record c {
    consumer = record c.consumer { name = name_override c.consumer.name };
    database = record c.database {
      host = text_override "POSTGRES_HOST" c.database.host;
      port = int_override "POSTGRES_PORT" c.database.port;
      database = text_override "POSTGRES_DB" c.database.database;
      user = text_override "POSTGRES_USER" c.database.user;
      password = text_override "POSTGRES_PASSWORD" c.database.password;
      ssl_mode = text_override "POSTGRES_SSLMODE" c.database.ssl_mode;
      max_open_conns = int_override "POSTGRES_MAX_OPEN_CONNS" c.database.max_open_conns;
      max_idle_conns = int_override "POSTGRES_MAX_IDLE_CONNS" c.database.max_idle_conns;
    };
    flowctl = record c.flowctl {
      enabled = flag_override "ENABLE_FLOWCTL" "true" true c.flowctl.enabled;
      endpoint = text_override "FLOWCTL_ENDPOINT" c.flowctl.endpoint;
      heartbeat_interval =
          duration_override "FLOWCTL_HEARTBEAT_INTERVAL" c.flowctl.heartbeat_interval;
    };
    batch = record c.batch {
      enabled = flag_override "ENABLE_BATCHING" "true" true c.batch.enabled;
      size = int_override "BATCH_SIZE" c.batch.size;
    };
    metrics = record c.metrics {
      enabled = flag_override "ENABLE_METRICS" "false" false c.metrics.enabled;
    };
  }

  -- `stat` says whether the file is there, `read` and `unmarshal` what the two calls return.
  unfoldable pub load_config :
      (String → Bool)
      → (String → Result String)
      → (String → Config → Result Config)
      → String
      → Result Config
  unfolding apply_env_overrides
  load_config stat read unmarshal path =
      if str_eq path "" || not (stat path)
      then good (apply_env_overrides default_config)
      else elim (read path) [
        | bad e ↦ bad (wrapped "failed to read config file" e)
        | good text ↦ elim (unmarshal text default_config) [
          | bad e ↦ bad (wrapped "failed to parse config file" e)
          | good c ↦ good (apply_env_overrides c)
        ]
      ]

  unfoldable pub get_env : String → String → String
  get_env key default_value = if str_eq (getenv key) "" then default_value else getenv key

-- `decimal` is the verb %d.
unfoldable pub validate : (ℕ → String) → Config → Option Error
validate decimal c =
    if c.batch.enabled && not (positive64 c.batch.size)
    then some (plain ("batch size must be positive, got: " <> decimal c.batch.size))
    else if not (positive64 c.database.port) || ltb 65535 c.database.port
    then some (plain ("invalid database port: " <> decimal c.database.port))
    else if negative64 c.database.max_open_conns
    then some
        (plain ("max_open_conns must be non-negative, got: " <> decimal c.database.max_open_conns))
    else if negative64 c.database.max_idle_conns
    then some
        (plain ("max_idle_conns must be non-negative, got: " <> decimal c.database.max_idle_conns))
    else none
