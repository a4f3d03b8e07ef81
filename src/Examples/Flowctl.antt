-- ===== src/Examples/Flowctl.antt =====
-- The theorems on pkg/flowctl at concrete inputs.
use mathlib.Core.Option as O
use flowctl_sdk.Base.{
  ℕ, ◌≤◌, ◌≡◌, ◌≢◌, refl, true, false, List, [], ◌∷◌, none, some, String, ◌<>◌, str_eq,
  if◌then◌else◌,
}
use flowctl_sdk.Base.Dict.{get}
use flowctl_sdk.Errors.{good}
use flowctl_sdk.Flowctl.Metrics.{Metrics, int64, float64, new_standard_metrics, get_metrics}
use flowctl_sdk.Flowctl.Metrics.Snapshot.{get_metrics_lookup}
use flowctl_sdk.Flowctl.Metrics.History as H
use flowctl_sdk.Flowctl.Metrics.History.{run_counts}
use flowctl_sdk.Flowctl.Health.{new_health_server}
use flowctl_sdk.Flowctl.Health.Sockets as S
use flowctl_sdk.Flowctl.Health.Sockets.{OwnsSocket, run_sockets}
use flowctl_sdk.Flowctl.Controller.{Controller, new_controller, register, start}
use flowctl_sdk.Flowctl.Controller.Registration.{Accepted, register_ok}
use flowctl_sdk.Flowctl.Controller.Lifecycle.{
  Reach, heartbeat_bounded, controller_stop_outcomes, restarted_controller_panics,
}
use flowctl_sdk.Flowctl.Controller.Lifecycle as L
use flowctl_sdk.Examples.{floats, flowctl_config, plane, controller}

-- Metrics with a counter that is named like a standard metric.
abbrev metrics : Metrics ℕ
metrics = record {
  processed_count = 3;
  error_count = 1;
  success_count = 2;
  processing_latency = 5;
  last_update_time = 40;
  counters = ("error_count", 8) ∷ ("ledgers", 4) ∷ [];
  gauges = ("lag", 6) ∷ [];
}

get_metrics_lookup_example :
    ((n : String)
      → get ("counter_" <> n) (get_metrics floats 50 metrics)
        ≡ O.map int64 (get n metrics.counters))
    × ((n : String)
        → get ("gauge_" <> n) (get_metrics floats 50 metrics)
          ≡ O.map float64 (get n metrics.gauges))
    × (get "processed_count" (get_metrics floats 50 metrics) ≡ some (int64 3))
    × (get "error_count" (get_metrics floats 50 metrics) ≡ some (int64 1))
    × (get "success_count" (get_metrics floats 50 metrics) ≡ some (int64 2))
    × (get "processing_latency" (get_metrics floats 50 metrics) ≡ some (float64 5))
unfolding get
get_metrics_lookup_example = get_metrics_lookup floats 50 metrics (refl, (refl, tt)) (refl, tt)

abbrev calls : List (ℕ × H.Call ℕ)
calls =
    (1, H.processed)
    ∷ (2, H.failed)
    ∷ (3, H.counter "ledgers" 4)
    ∷ (4, H.resets)
    ∷ (5, H.processed)
    ∷ []

run_counts_example :
    H.Agrees floats
      (H.run floats calls (new_standard_metrics floats 0))
      (H.tally floats calls (record { all_processed = 0; all_failed = 0; all_succeeded = 0 }))
run_counts_example = run_counts floats 0 calls

run_sockets_example :
    let (s, ks) =
      S.run
        (S.starts (good 7) ∷ S.starts (good 8) ∷ S.stops none ∷ [])
        (new_health_server 0 8088)
        [] in
    OwnsSocket s ks
run_sockets_example = run_sockets 0 8088 (S.starts (good 7) ∷ S.starts (good 8) ∷ S.stops none ∷ [])

register_ok_example :
    (controller.config.enabled ≡ true)
    × (conn : ℕ) × (id : String) × (plane.dial controller.config.endpoint ≡ good conn)
    × Accepted plane controller.service_id controller.config conn id
    × ((register plane controller).0 ≡ (
        if str_eq id ""
        then record controller { conn = some conn }
        else record controller { conn = some conn; service_id = id }))
unfolding register
register_ok_example = register_ok plane controller refl

abbrev running : Controller ℕ
running = record controller { conn = some 1; heartbeat_running = true; loops = 1 }

abbrev first : Controller ℕ
first = new_controller "1" flowctl_config

heartbeat_bounded_example :
    let c = (start (register plane first).0).0 in
    (c.loops ≤ 2)
    × (c.stop_closed ≡ false → c.loops ≤ 1)
    × (c.stop_closed ≡ false → c.heartbeat_running ≡ false → c.loops ≡ 0)
    × (c.heartbeat_running ≡ true → (c.conn ≢ none) × (c.config.enabled ≡ true))
heartbeat_bounded_example =
    heartbeat_bounded {F = ℕ} "1" flowctl_config {c = (start (register plane first).0).0}
      (L.next (L.next L.here (L.registers plane)) L.starts)
