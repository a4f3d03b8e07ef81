-- ===== src/Flowctl/Controller/Sending.antt =====
-- The heartbeats of pkg/flowctl/controller.go: sendHeartbeat and what it calls.
use flowctl_sdk.Base.{ℕ, [], String, Option, none, some}
use flowctl_sdk.Base.Dict.{Dict, merge, merge_with}
use flowctl_sdk.Flowctl.Types.{
  ServiceType, processor, source, consumer, HealthStatus, health_status_text,
}
use flowctl_sdk.Flowctl.Metrics.{MetricValue}
use flowctl_sdk.Flowctl.Controller.{Controller, HeartbeatRequest}

module _ {F : Type 0} where
  -- The standard metrics, if there are any, and over them the custom ones.
  unfoldable pub all_metrics : Option (Dict (MetricValue F)) → Controller F → Dict (MetricValue F)
  unfolding merge
  all_metrics none c = merge [] c.custom_metrics
  all_metrics (some standard) c = merge (merge [] standard) c.custom_metrics

  module _ (status_value : String → ℕ) (print : MetricValue F → String) where
    -- The request of sendHeartbeatToControlPlane. `status_value` is the generated table
    -- HealthStatus_value, 0 where it has no entry, and `print` the verb %v.
    unfoldable pub heartbeat_request :
        HealthStatus → Dict (MetricValue F) → Controller F → HeartbeatRequest
    heartbeat_request state metrics c = record {
      service_id = c.service_id;
      status = status_value (health_status_text state);
      metrics = merge_with print [] metrics;
    }

    -- What sendHeartbeat sends, by the service's type.
    unfoldable pub heartbeat_as :
        ServiceType → HealthStatus → Dict (MetricValue F) → Controller F → Option HeartbeatRequest
    unfolding heartbeat_request
    heartbeat_as processor state metrics c = some (heartbeat_request state metrics c)
    heartbeat_as source state metrics c = some (heartbeat_request state metrics c)
    heartbeat_as consumer state metrics c = some (heartbeat_request state metrics c)
    heartbeat_as _ state metrics c = none

    unfoldable pub send_heartbeat :
        HealthStatus → Option (Dict (MetricValue F)) → Controller F → Option HeartbeatRequest
    unfolding heartbeat_as all_metrics
    send_heartbeat state standard c = elim c.conn [
      | none ↦ none
      | some conn ↦ heartbeat_as c.config.service_type state (all_metrics standard c) c
    ]
