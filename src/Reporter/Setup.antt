-- ===== src/Reporter/Setup.antt =====
-- What a new reporter of pkg/component/reporter.go is like, and how it is known to flowctl.
use flowctl_sdk.Base.{
  ℕ, ◌≡◌, refl, ap, ◌∙◌, true, false, Option, none, some, String, str_eq, inl, inr, Bool-cases,
  if◌then◌else◌, arith, positive32, positive64,
}
use flowctl_sdk.Base.Dict.{Dict, get, get-put}
use flowctl_sdk.Errors.{Result-cases, Error, Result, good}
use flowctl_sdk.Reporter.{
  Config, Reporter, new_reporter, normalize_config, ServiceInfo, service_info, set_service_id,
  register, ServiceHeartbeat, heartbeat,
}

normalized :
    (c : Config)
    → let d = normalize_config c in
      (positive32 d.attempt ≡ true) × (positive64 d.heartbeat_interval ≡ true)
unfolding normalize_config
normalized c = ground arith

-- NewReporter gives a reporter with a positive attempt and a positive heartbeat interval, whatever the
-- configuration; an enabled one has an endpoint, a component ID and the connection that was made.
pub new_reporter_ready :
    (dial : String → Result ℕ) (c : Config) (r : Reporter)
    → new_reporter dial c ≡ good r
    → (positive32 r.config.attempt ≡ true)
      × (positive64 r.config.heartbeat_interval ≡ true)
      × (r.config.enabled ≡ c.enabled)
      × (r.config.enabled ≡ true
          → (str_eq r.config.endpoint "" ≡ false)
            × (str_eq r.config.component_id "" ≡ false)
            × (conn : ℕ) × (dial r.config.endpoint ≡ good conn)
            × (r.conn ≡ some conn))
unfolding new_reporter normalize_config
new_reporter_ready dial c r h =
    let (a, b) = normalized c in
    elim (Bool-cases c.enabled) [
      | inr off ↦ ground arith
      | inl on ↦ elim (Result-cases (dial c.endpoint)) [
        | inl (conn, q) ↦ (
          ground arith,
          ground arith,
          ground arith,
          λ on'. (ground arith, ground arith, conn, ground arith, ground arith),
        )
        | inr (e, q) ↦ absurd (ground arith)
      ]
    ]

heartbeat_lem :
    {M : Type 0} (beat : ServiceHeartbeat M → Option Error) (metrics : M) (r : Reporter)
    → r.config.enabled ≡ true
    → (heartbeat beat metrics r).1
      ≡ some (record {
        service_id = if str_eq r.service_id "" then r.config.component_id else r.service_id;
        metrics = metrics;
      })
unfolding heartbeat
heartbeat_lem beat metrics r on = ground arith

known_as :
    (id : String) (r : Reporter)
    → let t = set_service_id id r in
      (if str_eq t.service_id "" then t.config.component_id else t.service_id)
      ≡ (if str_eq id "" then r.config.component_id else id)
unfolding set_service_id
known_as id r = ground arith

registered :
    (decimal : ℕ → String) (answer : ServiceInfo → Result String) (service_type : ℕ)
    (metadata : Dict String) (r : Reporter) (id : String)
    → r.config.enabled ≡ true
    → answer (service_info decimal service_type metadata r) ≡ good id
    → (register decimal answer service_type metadata r).0 ≡ set_service_id id r
unfolding register
registered decimal answer service_type metadata r id on q = ground arith

-- After a Register without an error, an enabled reporter has announced itself under its component ID,
-- run and attempt, also where the caller's metadata has these keys; and its heartbeats go out under
-- the ID that flowctl assigned, or under the component ID where it assigned none.
pub register_then_heartbeat :
    {M : Type 0} (decimal : ℕ → String) (answer : ServiceInfo → Result String)
    (beat : ServiceHeartbeat M → Option Error) (service_type : ℕ) (metadata : Dict String)
    (metrics : M) (r : Reporter)
    → r.config.enabled ≡ true
    → (register decimal answer service_type metadata r).1 ≡ none
    → (info : ServiceInfo) × (id : String) × ((register decimal answer service_type metadata r).2
        ≡ some info)
      × (answer info ≡ good id)
      × (info.component_id ≡ r.config.component_id)
      × (get "flowctl_run_id" info.metadata ≡ some r.config.run_id)
      × (get "flowctl_attempt" info.metadata ≡ some (decimal r.config.attempt))
      × ((heartbeat beat metrics (register decimal answer service_type metadata r).0).1
          ≡ some (record {
            service_id = if str_eq id "" then r.config.component_id else id;
            metrics = metrics;
          }))
unfolding register
register_then_heartbeat decimal answer beat service_type metadata metrics r on h =
    elim (Result-cases (answer (service_info decimal service_type metadata r))) [
      | inr (e, q) ↦ absurd (ground arith)
      | inl (id, q) ↦ (
        service_info decimal service_type metadata r,
        id,
        ground arith,
        q,
        refl,
        simp get-put,
        simp get-put,
        rw (registered decimal answer service_type metadata r id on q) (
            heartbeat_lem beat metrics (set_service_id id r) on
            ∙ ap (λ t. some (record { service_id = t; metrics = metrics })) (known_as id r)),
      )
    ]
