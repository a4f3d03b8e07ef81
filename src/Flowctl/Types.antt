-- ===== src/Flowctl/Types.antt =====
-- pkg/flowctl/types.go.
use flowctl_sdk.Base.{ℕ, Bool, true, false, List, String}
use flowctl_sdk.Base.Dict.{Dict}

-- `ServiceType` is a string type: `unset` is "", and `other` any further value.
pub data ServiceType : Type 0 where
  processor source consumer unset : ServiceType
  other : String → ServiceType

pub service_type_text : ServiceType → String
service_type_text processor = "processor"
service_type_text source = "source"
service_type_text consumer = "consumer"
service_type_text unset = ""
service_type_text (other t) = t

-- A nil `Metadata` map is the empty one: it is only read, or replaced before it is written.
pub record Config : Type 0 where
  pub enabled : Bool
  pub endpoint : String
  pub service_id : String
  pub service_type : ServiceType
  pub heartbeat_interval : ℕ  -- time.Duration, an int64 of nanoseconds
  pub input_event_types : List String
  pub output_event_types : List String
  pub metadata : Dict String

pub data HealthStatus : Type 0 where
  unknown starting healthy unhealthy stopping : HealthStatus

unfoldable pub health_status_text : HealthStatus → String
health_status_text unknown = "UNKNOWN"
health_status_text starting = "STARTING"
health_status_text healthy = "HEALTHY"
health_status_text unhealthy = "UNHEALTHY"
health_status_text stopping = "STOPPING"

unfoldable pub is_healthy : HealthStatus → Bool
is_healthy healthy = true
is_healthy _ = false

unfoldable pub is_unhealthy : HealthStatus → Bool
is_unhealthy unhealthy = true
is_unhealthy _ = false

unfoldable pub is_unset : ServiceType → Bool
is_unset unset = true
is_unset _ = false
