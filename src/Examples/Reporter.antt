-- ===== src/Examples/Reporter.antt =====
-- The theorems on pkg/component at concrete inputs.
use flowctl_sdk.Base.{
  ℕ, ◌≡◌, ◌≢◌, refl, true, false, [], ◌∷◌, Option, none, some, String, str_eq, if◌then◌else◌,
}
use flowctl_sdk.Base.Dict.{Dict, get}
use flowctl_sdk.Errors.{Error, Result, good, bad}
use flowctl_sdk.Reporter.{
  Config, Reporter, new_reporter, normalize_config, ServiceInfo, register, ServiceHeartbeat,
  heartbeat, default_heartbeat_interval,
}
use flowctl_sdk.Reporter.Setup.{register_then_heartbeat}
use flowctl_sdk.Reporter.Chunks.{ChunkRun, empty_update, report_chunk}
use flowctl_sdk.Reporter.Reports.{IsPlaced, report_sends-IsPlaced}

-- A configuration with neither an attempt nor an interval.
abbrev config : Config
config = record {
  enabled = true;
  endpoint = "flowctl:8080";
  component_id = "ingest";
  run_id = "run-1";
  attempt = 0;
  heartbeat_interval = 0;
}

abbrev reporter : Reporter
reporter = record {
  config = record config { attempt = 1; heartbeat_interval = default_heartbeat_interval };
  conn = some 1;
  service_id = "";
}

abbrev decimal : ℕ → String
decimal n = "1"

abbrev assigns : ServiceInfo → Result String
assigns info = good ""

abbrev beats : ServiceHeartbeat ℕ → Option Error
beats q = none

abbrev metadata : Dict String
metadata = ("flowctl_run_id", "mine") ∷ []

register_then_heartbeat_example :
    (info : ServiceInfo) × (id : String) × ((register decimal assigns 2 metadata reporter).2
      ≡ some info)
    × (assigns info ≡ good id)
    × (info.component_id ≡ reporter.config.component_id)
    × (get "flowctl_run_id" info.metadata ≡ some "run-1")
    × (get "flowctl_attempt" info.metadata ≡ some "1")
    × ((heartbeat beats 5 (register decimal assigns 2 metadata reporter).0).1
        ≡ some (record { service_id = if str_eq id "" then "ingest" else id; metrics = 5 }))
unfolding register
register_then_heartbeat_example =
    register_then_heartbeat decimal assigns beats 2 metadata 5 reporter refl refl

abbrev accepts : ChunkRun → Result ChunkRun
accepts c = good c

abbrev dials : String → Result ℕ
dials endpoint = good 1

-- Neither the update nor the configuration has an attempt.
report_sends-IsPlaced_example :
    let t = report_chunk accepts empty_update reporter in
    (config.enabled ≡ false → (t.sent ≡ none) × (t.error ≡ none) × (t.response ≡ none))
    × (config.enabled ≡ true
        → (c : ChunkRun) × (t.sent ≡ some c)
          × IsPlaced config empty_update c
          × ((a : ChunkRun) → accepts c ≡ good a → (t.response ≡ some a) × (t.error ≡ none))
          × ((e : Error) → accepts c ≡ bad e → (t.response ≡ none) × (t.error ≢ none)))
unfolding new_reporter normalize_config
report_sends-IsPlaced_example =
    report_sends-IsPlaced accepts dials config empty_update reporter refl
