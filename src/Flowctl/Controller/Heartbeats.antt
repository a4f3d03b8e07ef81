-- ===== src/Flowctl/Controller/Heartbeats.antt =====
-- What a heartbeat of pkg/flowctl/controller.go carries.
use mathlib.Core.Option as O
use text.Mathlib.Text.{starts_with}
use flowctl_sdk.Base.{
  ℕ, ◌≡◌, refl, false, String, [], Option, none, some, or_else, or_else-none, arith, ◌∙◌, ap,
}
use flowctl_sdk.Base.Dict.{
  Dict, get, IsDict, merge, merge-IsDict, get-merge, merge_with, get-merge_with,
}
use flowctl_sdk.Flowctl.Types.{HealthStatus, health_status_text}
use flowctl_sdk.Flowctl.Metrics.{MetricValue}
use flowctl_sdk.Flowctl.Controller.{Controller, HeartbeatRequest}
use flowctl_sdk.Flowctl.Controller.Sending.{all_metrics, send_heartbeat}

module _ {F : Type 0} (status_value : String → ℕ) (print : MetricValue F → String) where
  all_metrics-IsDict :
      (std : Option (Dict (MetricValue F))) (c : Controller F) → IsDict (all_metrics std c)
  unfolding all_metrics
  all_metrics-IsDict none c = merge-IsDict [] c.custom_metrics tt
  all_metrics-IsDict (some m) c = merge-IsDict (merge [] m) c.custom_metrics (merge-IsDict [] m tt)

  get-all_metrics :
      (k : String) (m : Dict (MetricValue F)) (c : Controller F)
      → IsDict m
      → IsDict c.custom_metrics
      → get k (all_metrics (some m) c) ≡ or_else (get k c.custom_metrics) (get k m)
  unfolding all_metrics get
  get-all_metrics k m c h hc =
      rw (get-merge k (merge [] m) c.custom_metrics hc, get-merge k [] m h, or_else-none)

  -- Where no metric has two entries, a heartbeat that is sent carries the service ID in use, and
  -- under each key the custom metric of that name or else the standard one, printed.
  pub send_heartbeat_lookup :
      (state : HealthStatus) (m : Dict (MetricValue F)) (c : Controller F) {r : HeartbeatRequest}
      → IsDict m
      → IsDict c.custom_metrics
      → send_heartbeat status_value print state (some m) c ≡ some r
      → (r.service_id ≡ c.service_id)
        × ((k : String)
            → get k r.metrics ≡ O.map print (or_else (get k c.custom_metrics) (get k m)))
  unfolding send_heartbeat get
  send_heartbeat_lookup state m c {r} h hc e = (
    ground arith,
    λ k.
        ap (get k) printed
        ∙ get-merge_with print k [] (all_metrics (some m) c) whole
        ∙ rw (get-all_metrics k m c h hc) (or_else-none _),
  )
    where
      printed : r.metrics ≡ merge_with print [] (all_metrics (some m) c)
      printed = ground arith

      whole : IsDict (all_metrics (some m) c)
      whole = all_metrics-IsDict (some m) c

  -- The table's names begin with HEALTH_STATUS_, and a name that it lacks reads as 0. Then every
  -- heartbeat reports status 0, whatever the health of the component.
  pub heartbeat_status_zero :
      ((t : String) → starts_with t "HEALTH_STATUS_" ≡ false → status_value t ≡ 0)
      → (state : HealthStatus) (std : Option (Dict (MetricValue F))) (c : Controller F)
        {r : HeartbeatRequest}
      → send_heartbeat status_value print state std c ≡ some r
      → r.status ≡ 0
  unfolding send_heartbeat health_status_text
  heartbeat_status_zero lacks state std c e = ground (
    arith,
    lacks "UNKNOWN" refl,
    lacks "STARTING" refl,
    lacks "HEALTHY" refl,
    lacks "UNHEALTHY" refl,
    lacks "STOPPING" refl,
  )
