-- ===== src/Source/Config.antt =====
-- pkg/source/config.go. `FlowctlConfig` is a pointer: `none` is nil.
pub mod Completion
use flowctl_sdk.Base.{ℕ, false, List, [], Option, none, some, String, ◌<>◌, str_eq, if◌then◌else◌}
use flowctl_sdk.Base.Dict.{put}
use flowctl_sdk.Flowctl.Types.{ServiceType, source, unset, is_unset}
use flowctl_sdk.Flowctl.Types as T
use flowctl_sdk.Flowctl.Controller.{default_heartbeat_interval}

pub record Config : Type 0 where
  pub id : String
  pub name : String
  pub description : String
  pub version : String
  pub endpoint : String
  pub output_event_types : List String
  pub buffer_size : ℕ
  pub flowctl_config : Option T.Config
  pub health_port : ℕ

unfoldable pub default_config : Config
default_config = record {
  id = "";
  name = "source";
  description = "A flowctl source";
  version = "1.0.0";
  endpoint = ":50051";
  output_event_types = [];
  buffer_size = 100;
  flowctl_config = some (record {
    enabled = false;
    endpoint = "localhost:8080";
    service_id = "";
    service_type = source;
    heartbeat_interval = default_heartbeat_interval;
    input_event_types = [];
    output_event_types = [];
    metadata = [];
  });
  health_port = 8088;
}

-- The block of Validate for an enabled integration.
unfoldable pub complete : Config → T.Config → T.Config
complete c f = record f {
  service_id = if str_eq f.service_id "" then c.id else f.service_id;
  service_type = if is_unset f.service_type then source else f.service_type;
  metadata = put "endpoint" c.endpoint (
      put "source_description" c.description (
        put "source_version" c.version
          (put "source_name" c.name (put "source_id" c.id f.metadata))));
  output_event_types = c.output_event_types;
}

-- `generated` is what generateID gives.
unfoldable pub validate : String → Config → Config
unfolding complete
validate generated c = elim named.flowctl_config [
  | none ↦ named
  | some f ↦ if f.enabled then record named { flowctl_config = some (complete named f) } else named
]
  where
    named : Config
    named = record c { id = if str_eq c.id "" then "source-" <> generated else c.id }
