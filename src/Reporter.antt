-- ===== src/Reporter.antt =====
-- pkg/component/reporter.go: the reporter of a component's state to flowctl. A nil *Reporter is
-- `none`. Each call returns, beside its result, the request that it has sent, if any. An int32 and an
-- int64 are their bit patterns, a time is a number.
pub mod Setup
pub mod Chunks
pub mod Reports
use flowctl_sdk.Base.{
  ℕ, ◌*◌, ◌%◌, ◌^◌, Bool, true, false, not, List, [], ◌∷◌, Option, none, some, String, str_eq,
  if◌then◌else◌, ◌==◌, positive32, positive64,
}
use flowctl_sdk.Base.Dict.{Dict, put}
use flowctl_sdk.Errors.{Error, plain, wrapped, Result, good, bad}

-- 10 * time.Second.
abbrev pub default_heartbeat_interval : ℕ
default_heartbeat_interval = 10 * 1000000000

pub record Config : Type 0 where
  pub enabled : Bool
  pub endpoint : String
  pub component_id : String
  pub run_id : String
  pub attempt : ℕ  -- int32
  pub heartbeat_interval : ℕ  -- time.Duration

-- os.Getenv, strconv.ParseInt for a number of bits with `none` on an error, and strings.EqualFold.
pub record Environment : Type 0 where
  pub getenv : String → String
  pub parse_int : ℕ → String → Option ℕ
  pub equal_fold : String → String → Bool

module _ (w : Environment) where
  open w use {getenv, parse_int, equal_fold}

  unfoldable pub attempt_from_env : String → ℕ
  attempt_from_env raw =
      if str_eq raw ""
      then 1
      else elim (parse_int 32 raw) [ none ↦ 1 | some n ↦ if positive32 n then n else 1 ]

  -- The product is a time.Duration, so it wraps.
  unfoldable pub interval_from_env : String → ℕ
  interval_from_env raw =
      if str_eq raw "" then default_heartbeat_interval else elim (parse_int 64 raw) [
        | none ↦ default_heartbeat_interval
        | some n ↦ if positive64 n then n * 1000000 % 2 ^ 64 else default_heartbeat_interval
      ]

  unfoldable pub config_from_env : Config
  unfolding attempt_from_env interval_from_env
  config_from_env = record {
    enabled = equal_fold (getenv "ENABLE_FLOWCTL") "true";
    endpoint = getenv "FLOWCTL_ENDPOINT";
    component_id = getenv "FLOWCTL_COMPONENT_ID";
    run_id = getenv "FLOWCTL_RUN_ID";
    attempt = attempt_from_env (getenv "FLOWCTL_ATTEMPT");
    heartbeat_interval = interval_from_env (getenv "FLOWCTL_HEARTBEAT_INTERVAL_MS");
  }

pub record Reporter : Type 0 where
  pub config : Config
  pub conn : Option ℕ
  pub service_id : String

unfoldable pub normalize_config : Config → Config
normalize_config c = record c {
  attempt = if positive32 c.attempt then c.attempt else 1;
  heartbeat_interval =
      if positive64 c.heartbeat_interval then c.heartbeat_interval else default_heartbeat_interval;
}

-- The connection, and an error of closing it, are the control plane's answers.
unfoldable pub new_reporter : (String → Result ℕ) → Config → Result Reporter
unfolding normalize_config
new_reporter dial given =
    let c = normalize_config given in
    if not c.enabled
    then good (record { config = c; conn = none; service_id = "" })
    else if str_eq c.endpoint ""
    then bad (plain "FLOWCTL_ENDPOINT is required when ENABLE_FLOWCTL=true")
    else if str_eq c.component_id ""
    then bad (plain "FLOWCTL_COMPONENT_ID is required when ENABLE_FLOWCTL=true")
    else elim (dial c.endpoint) [
      | bad e ↦ bad (wrapped "connect to flowctl control plane" e)
      | good conn ↦ good (record { config = c; conn = some conn; service_id = "" })
    ]

unfoldable pub close : (ℕ → Option Error) → Option Reporter → Option Error
close close_conn none = none
close close_conn (some r) = elim r.conn [ none ↦ none | some conn ↦ close_conn conn ]

unfoldable pub is_enabled : Option Reporter → Bool
is_enabled none = false
is_enabled (some r) = r.config.enabled

-- `for k, v := range src { dst[k] = v }` into a new map.
unfoldable pub copy_map : {V : Type 0} → Dict V → Dict V → Dict V
copy_map dst [] = dst
copy_map dst ((k, v) ∷ src) = copy_map (put k v dst) src

pub record ServiceInfo : Type 0 where
  pub service_id : String
  pub component_id : String
  pub service_type : ℕ
  pub metadata : Dict String

-- The request of Register. `decimal` is strconv.Itoa.
unfoldable pub service_info : (ℕ → String) → ℕ → Dict String → Reporter → ServiceInfo
unfolding copy_map
service_info decimal service_type metadata r = record {
  service_id = r.config.component_id;
  component_id = r.config.component_id;
  service_type = service_type;
  metadata =
      put "flowctl_attempt" (decimal r.config.attempt)
        (put "flowctl_run_id" r.config.run_id (copy_map [] metadata));
}

unfoldable pub set_service_id : String → Reporter → Reporter
set_service_id id r = record r { service_id = if str_eq id "" then r.config.component_id else id }

-- `answer` is the control plane's: the assigned ID.
unfoldable pub register :
    (ℕ → String)
    → (ServiceInfo → Result String)
    → ℕ
    → Dict String
    → Reporter
    → Reporter × Option Error × Option ServiceInfo
unfolding service_info set_service_id
register decimal answer service_type metadata r =
    if not r.config.enabled
    then (r, none, none)
    else let info = service_info decimal service_type metadata r in
      elim (answer info) [
        | bad e ↦ (r, some (wrapped "register component with flowctl" e), some info)
        | good id ↦ (set_service_id id r, none, some info)
      ]

pub record ServiceHeartbeat (M : Type 0) : Type 0 where
  pub service_id : String
  pub metrics : M

module _ {M : Type 0} where
  unfoldable pub heartbeat :
      (ServiceHeartbeat M → Option Error)
      → M
      → Reporter
      → Option Error × Option (ServiceHeartbeat M)
  heartbeat answer metrics r =
      if not r.config.enabled
      then (none, none)
      else let request : ServiceHeartbeat M = record {
        service_id = if str_eq r.service_id "" then r.config.component_id else r.service_id;
        metrics = metrics;
      } in
        elim (answer request) [
          | none ↦ (none, some request)
          | some e ↦ (some (wrapped "send flowctl heartbeat" e), some request)
        ]
