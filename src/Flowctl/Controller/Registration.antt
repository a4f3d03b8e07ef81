-- ===== src/Flowctl/Controller/Registration.antt =====
-- What pkg/flowctl/controller.go's Register leaves behind.
use flowctl_sdk.Base.{
  ℕ, ◌≡◌, refl, true, false, String, Option, none, some, str_eq, inl, inr, if◌then◌else◌, arith,
  is_some,
}
use flowctl_sdk.Errors.{Result-cases, Error, Result, good, bad}
use flowctl_sdk.Flowctl.Types.{Config, ServiceType, processor, source, consumer, unset, other}
use flowctl_sdk.Flowctl.Controller.{
  ControlPlane, ComponentInfo, ComponentType, component_processor, component_source,
  component_consumer, Controller, register, register_as, start, finish_registration, processor_info,
  source_info, consumer_info,
}

abbrev pub type_of_service : ServiceType → Option ComponentType
type_of_service processor = some component_processor
type_of_service source = some component_source
type_of_service consumer = some component_consumer
type_of_service unset = none
type_of_service (other t) = none

-- The control plane accepted a message about this component and assigned `id`.
pub record Accepted (cp : ControlPlane) (service : String) (config : Config) (conn : ℕ)
    (id : String) : Type 0 where
  pub info : ComponentInfo
  pub answered : cp.register_component conn info ≡ good id
  pub names_service : info.id ≡ service
  pub names_type : type_of_service config.service_type ≡ some info.component_type
  pub sends_metadata : info.metadata ≡ config.metadata
  pub sends_inputs : info.input_event_types ≡ config.input_event_types
  pub sends_outputs : info.output_event_types ≡ config.output_event_types

finish_registration_ok :
    {F : Type 0} (m : String) (r : Result String) (c : Controller F)
    → (finish_registration m r c).1 ≡ none
    → (id : String) × (r ≡ good id)
      × ((finish_registration m r c).0 ≡ (if str_eq id "" then c else record c { service_id = id }))
unfolding finish_registration
finish_registration_ok m (bad e) c h = cc
finish_registration_ok m (good id) c h = (id, refl, refl)

module _ {F : Type 0} (cp : ControlPlane) where
  register_as_ok :
      (t : ServiceType) (conn : ℕ) (c : Controller F)
      → c.config.service_type ≡ t
      → (register_as t cp conn c).1 ≡ none
      → (id : String) × Accepted cp c.service_id c.config conn id
        × ((register_as t cp conn c).0 ≡ (if str_eq id "" then c else record c { service_id = id }))
  unfolding register_as
  register_as_ok processor conn c e h =
      let (id, p, q) = finish_registration_ok _ _ c h in
      (
        id,
        record {
          info = processor_info c;
          answered = p;
          names_service = refl;
          names_type = rw e;
          sends_metadata = refl;
          sends_inputs = refl;
          sends_outputs = refl;
        },
        q,
      )
  register_as_ok source conn c e h =
      let (id, p, q) = finish_registration_ok _ _ c h in
      (
        id,
        record {
          info = source_info c;
          answered = p;
          names_service = refl;
          names_type = rw e;
          sends_metadata = refl;
          sends_inputs = refl;
          sends_outputs = refl;
        },
        q,
      )
  register_as_ok consumer conn c e h =
      let (id, p, q) = finish_registration_ok _ _ c h in
      (
        id,
        record {
          info = consumer_info c;
          answered = p;
          names_service = refl;
          names_type = rw e;
          sends_metadata = refl;
          sends_inputs = refl;
          sends_outputs = refl;
        },
        q,
      )
  register_as_ok unset conn c e h = ground arith
  register_as_ok (other t) conn c e h = ground arith

  -- When Register succeeds, the integration is enabled, the control plane at the configured endpoint
  -- accepted a message that names the component's id, type, event types and metadata, and the
  -- controller keeps that connection and takes the assigned id, if it is not "".
  pub register_ok :
      (c : Controller F)
      → (register cp c).1 ≡ none
      → (c.config.enabled ≡ true)
        × (conn : ℕ) × (id : String) × (cp.dial c.config.endpoint ≡ good conn)
        × Accepted cp c.service_id c.config conn id
        × ((register cp c).0 ≡ (
            if str_eq id ""
            then record c { conn = some conn }
            else record c { conn = some conn; service_id = id }))
  unfolding register
  register_ok c h = elim (Result-cases (cp.dial c.config.endpoint)) [
    | inl (conn, d) ↦ dialled conn d
    | inr (e, d) ↦ ground arith
  ]
    where
      dialled :
          (conn : ℕ)
          → cp.dial c.config.endpoint ≡ good conn
          → (c.config.enabled ≡ true)
            × (conn : ℕ) × (id : String) × (cp.dial c.config.endpoint ≡ good conn)
            × Accepted cp c.service_id c.config conn id
            × ((register cp c).0 ≡ (
                if str_eq id ""
                then record c { conn = some conn }
                else record c { conn = some conn; service_id = id }))
      dialled conn d =
          let (id, a, q) =
            register_as_ok c.config.service_type conn (record c { conn = some conn }) refl
              (ground arith) in
          (ground arith, conn, id, d, a, ground arith)

  -- When Register fails, the id and the heartbeat stay as they were.
  pub register_error_keeps :
      (c : Controller F) {e : Error}
      → (register cp c).1 ≡ some e
      → ((register cp c).0.service_id ≡ c.service_id)
        × ((register cp c).0.config ≡ c.config)
        × ((register cp c).0.heartbeat_running ≡ c.heartbeat_running)
        × ((register cp c).0.loops ≡ c.loops)
  unfolding register
  register_error_keeps c h = ground arith

  -- A controller whose registration was refused starts its heartbeat all the same: Start asks for a
  -- connection and not for a registration.
  pub refused_starts :
      (c : Controller F) (conn : ℕ)
      → c.config.enabled ≡ true
      → c.heartbeat_running ≡ false
      → cp.dial c.config.endpoint ≡ good conn
      → ((info : ComponentInfo) → (e : Error) × (cp.register_component conn info ≡ bad e))
      → let (c', e) = register cp c in
        (is_some e ≡ true) × ((start c').1 ≡ none) × ((start c').0.heartbeat_running ≡ true)
  unfolding register start
  refused_starts c conn en run d refused =
      ground (arith, refused (processor_info c), refused (source_info c), refused (consumer_info c))
