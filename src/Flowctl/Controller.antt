-- ===== src/Flowctl/Controller.antt =====
-- pkg/flowctl/controller.go. The control plane's client is generated code outside the repository: a
-- parameter that says what each remote call answers. `loops` counts the goroutines that run
-- startHeartbeat, and `crashed` says that one of them has brought the process down.
pub mod Registration
pub mod Lifecycle
pub mod Sending
pub mod Heartbeats
use flowctl_sdk.Base.{
  ℕ, suc, ◌-◌, ◌*◌, ◌^◌, Bool, true, false, not, List, [], String, ◌<>◌, Option, none, some, str_eq,
  ◌==◌, if◌then◌else◌, positive64,
}
use flowctl_sdk.Base.Dict.{Dict, get, merge, merge_with}
use flowctl_sdk.Errors.{
  Error, sentinel, plain, wrapped, flowctl_not_enabled, not_registered, Outcome, returned, panicked,
  Result, good, bad,
}
use flowctl_sdk.Flowctl.Types.{
  Config, ServiceType, processor, source, consumer, unset, other, service_type_text, HealthStatus,
  health_status_text,
}
use flowctl_sdk.Flowctl.Metrics.{MetricValue}

-- 30 * time.Second.
abbrev pub default_heartbeat_interval : ℕ
default_heartbeat_interval = 30 * 1000000000

pub data ComponentType : Type 0 where
  component_processor component_source component_consumer : ComponentType

-- The registration message.
pub record ComponentInfo : Type 0 where
  pub id : String
  pub name : String
  pub description : String
  pub version : String
  pub component_type : ComponentType
  pub endpoint : String
  pub input_event_types : List String
  pub output_event_types : List String
  pub metadata : Dict String

pub record HeartbeatRequest : Type 0 where
  pub service_id : String
  pub status : ℕ
  pub metrics : Dict String

-- What the remote side answers: a connection, the assigned service ID, and an error on close.
pub record ControlPlane : Type 0 where
  pub dial : String → Result ℕ
  pub register_component : ℕ → ComponentInfo → Result String
  pub close : ℕ → Option Error

pub record Controller (F : Type 0) : Type 0 where
  pub config : Config
  pub service_id : String
  pub conn : Option ℕ
  pub stop_closed : Bool  -- the channel `stopHeartbeat` has been closed
  pub heartbeat_running : Bool
  pub custom_metrics : Dict (MetricValue F)
  pub loops : ℕ
  pub crashed : Bool

-- A missing key of a map of texts reads as "".
unfoldable pub get_text : String → Dict String → String
get_text k m = elim (get k m) [ none ↦ "" | some v ↦ v ]

module _ {F : Type 0} where
  -- `stamp` is the clock as generateServiceID prints it.
  unfoldable pub new_controller : String → Config → Controller F
  new_controller stamp config = record {
    config = config';
    service_id = config'.service_id;
    conn = none;
    stop_closed = false;
    heartbeat_running = false;
    custom_metrics = [];
    loops = 0;
    crashed = false;
  }
    where
      config' : Config
      config' = record config {
        heartbeat_interval =
            if config.heartbeat_interval == 0
            then default_heartbeat_interval
            else config.heartbeat_interval;
        service_id =
            if str_eq config.service_id ""
            then service_type_text config.service_type <> "-" <> stamp
            else config.service_id;
      }

  -- `if resp.ServiceId != "" { c.serviceID = resp.ServiceId }`.
  unfoldable pub adopt_id : String → Controller F → Controller F
  adopt_id id c = if str_eq id "" then c else record c { service_id = id }

  unfoldable pub finish_registration :
      String → Result String → Controller F → Controller F × Option Error
  unfolding adopt_id
  finish_registration message (bad e) c = (c, some (wrapped message e))
  finish_registration message (good id) c = (adopt_id id c, none)

  unfoldable pub processor_info : Controller F → ComponentInfo
  unfolding get_text
  processor_info c = record {
    id = c.service_id;
    name = get_text "processor_name" c.config.metadata;
    description = get_text "processor_description" c.config.metadata;
    version = get_text "processor_version" c.config.metadata;
    component_type = component_processor;
    endpoint = get_text "endpoint" c.config.metadata;
    input_event_types = c.config.input_event_types;
    output_event_types = c.config.output_event_types;
    metadata = c.config.metadata;
  }

  unfoldable pub register_processor : ControlPlane → ℕ → Controller F → Controller F × Option Error
  unfolding finish_registration processor_info
  register_processor cp conn c =
      finish_registration "failed to register processor"
        (cp.register_component conn (processor_info c)) c

  unfoldable pub source_info : Controller F → ComponentInfo
  unfolding get_text
  source_info c = record {
    id = c.service_id;
    name = get_text "source_name" c.config.metadata;
    description = get_text "source_description" c.config.metadata;
    version = get_text "source_version" c.config.metadata;
    component_type = component_source;
    endpoint = get_text "endpoint" c.config.metadata;
    input_event_types = c.config.input_event_types;
    output_event_types = c.config.output_event_types;
    metadata = c.config.metadata;
  }

  unfoldable pub register_source : ControlPlane → ℕ → Controller F → Controller F × Option Error
  unfolding finish_registration source_info
  register_source cp conn c =
      finish_registration "failed to register source" (cp.register_component conn (source_info c)) c

  unfoldable pub consumer_info : Controller F → ComponentInfo
  unfolding get_text
  consumer_info c = record {
    id = c.service_id;
    name = get_text "consumer_name" c.config.metadata;
    description = get_text "consumer_description" c.config.metadata;
    version = get_text "consumer_version" c.config.metadata;
    component_type = component_consumer;
    endpoint = get_text "endpoint" c.config.metadata;
    input_event_types = c.config.input_event_types;
    output_event_types = c.config.output_event_types;
    metadata = c.config.metadata;
  }

  unfoldable pub register_consumer : ControlPlane → ℕ → Controller F → Controller F × Option Error
  unfolding finish_registration consumer_info
  register_consumer cp conn c =
      finish_registration "failed to register consumer"
        (cp.register_component conn (consumer_info c)) c

  -- The switch of Register.
  unfoldable pub register_as :
      ServiceType → ControlPlane → ℕ → Controller F → Controller F × Option Error
  unfolding register_processor register_source register_consumer
  register_as processor cp conn c = register_processor cp conn c
  register_as source cp conn c = register_source cp conn c
  register_as consumer cp conn c = register_consumer cp conn c
  register_as unset cp conn c = (c, some (plain "unknown service type: "))
  register_as (other t) cp conn c = (c, some (plain ("unknown service type: " <> t)))

  unfoldable pub register : ControlPlane → Controller F → Controller F × Option Error
  unfolding register_as
  register cp c =
      if not c.config.enabled
      then (c, some (sentinel flowctl_not_enabled))
      else elim (cp.dial c.config.endpoint) [
        | bad e ↦ (c, some (wrapped ("failed to connect to flowctl at " <> c.config.endpoint) e))
        | good conn ↦ register_as c.config.service_type cp conn (record c { conn = some conn })
      ]

  -- `go c.startHeartbeat(ctx)`: its ticker panics on an interval that is not positive.
  unfoldable pub spawn_heartbeat : Controller F → Controller F
  spawn_heartbeat c =
      if positive64 c.config.heartbeat_interval
      then record c { loops = suc c.loops }
      else record c { crashed = true }

  unfoldable pub start : Controller F → Controller F × Option Error
  unfolding spawn_heartbeat
  start c = if not c.config.enabled then (c, none) else elim c.conn [
    | none ↦ (c, some (sentinel not_registered))
    | some conn ↦ (
      if c.heartbeat_running then c else spawn_heartbeat (record c { heartbeat_running = true }),
      none,
    )
  ]

  -- `c.conn.Close()` and what follows it.
  unfoldable pub close_conn : ControlPlane → Controller F → Controller F × Outcome
  close_conn cp c = elim c.conn [
    | none ↦ (c, returned none)
    | some conn ↦ elim (cp.close conn) [
      | some e ↦ (c, returned (some (wrapped "error closing gRPC connection" e)))
      | none ↦ (record c { conn = none }, returned none)
    ]
  ]

  -- Closing the channel a second time panics.
  unfoldable pub stop : ControlPlane → Controller F → Controller F × Outcome
  unfolding close_conn
  stop cp c =
      if not c.config.enabled
      then (c, returned none)
      else if c.heartbeat_running
      then if c.stop_closed
        then (record c { heartbeat_running = false }, panicked)
        else close_conn cp (record c { heartbeat_running = false; stop_closed = true })
      else close_conn cp c

  unfoldable pub update_metrics : Dict (MetricValue F) → Controller F → Controller F
  update_metrics metrics c = record c { custom_metrics = metrics }
