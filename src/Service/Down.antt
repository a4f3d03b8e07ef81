-- ===== src/Service/Down.antt =====
-- What a Start that fails and a Stop that returns take down.
use flowctl_sdk.Base.{
  ◌≡◌, ◌≢◌, refl, true, false, [], Option, none, some, String, ◌⊎◌, inl, inr, arith, Option-cases,
}
use flowctl_sdk.Errors.{Error, Outcome, returned, panicked}
use flowctl_sdk.Flowctl.Types.{stopping}
use flowctl_sdk.Flowctl.Controller as Controller
use flowctl_sdk.Flowctl.Controller.{Controller}
use flowctl_sdk.Flowctl.Health as Health
use flowctl_sdk.Service.{
  Service, Surroundings, set_status, stop_health, stop_controller, launch, clean_up, start_service,
  stop_server, stop_service,
}
use flowctl_sdk.Service.Steps.{IsIdle, IsSound, set_status-IsSound, launch-IsSound}

pub returned_not_panicked : {o : Outcome} {e : Option Error} → o ≡ returned e → o ≢ panicked
returned_not_panicked h q = ground arith

module _ {F : Type 0} where
  -- What a component that is down has given back: the health socket and the heartbeat.
  pub record IsDown (s : Service F) : Type 0 where
    pub not_started : s.started ≡ false
    pub says_stopping : s.health.status ≡ stopping
    pub no_socket : s.sockets ≡ []
    pub no_health_server : s.health.server ≡ none
    pub heartbeat_off : IsIdle s.controller

  stop-idle :
      (w : Surroundings) (c : Controller F)
      → c.config.enabled ≡ true
      → (Controller.stop w.plane c).0.heartbeat_running ≡ false
  unfolding Controller.stop
  stop-idle w c h = ground arith

  stop-enabled :
      (w : Surroundings) (c : Controller F) → (Controller.stop w.plane c).0.config ≡ c.config
  unfolding Controller.stop
  stop-enabled w c = ground arith

  stop_controller_lem :
      (w : Surroundings) (s : Service F)
      → IsSound s
      → IsSound (stop_controller w s).0 × IsIdle (stop_controller w s).0.controller
  unfolding stop_controller
  stop_controller_lem w s v = grind (arith, stop-idle, stop-enabled)

  stop_health_lem :
      (w : Surroundings) (s : Service F)
      → IsSound s
      → let t = stop_health w s in
        (t.health.status ≡ stopping)
        × (t.sockets ≡ [])
        × (t.health.server ≡ none)
        × (t.controller ≡ s.controller)
        × (t.started ≡ s.started)
        × (t.stop_closed ≡ s.stop_closed)
        × (t.server ≡ s.server)
        × (t.serving ≡ s.serving)
  unfolding stop_health Health.stop
  stop_health_lem w s v = ground arith

  pub stop_controller_keeps :
      (w : Surroundings) (s : Service F)
      → let t = (stop_controller w s).0 in
        (t.started ≡ s.started) × (t.stop_closed ≡ s.stop_closed) × (t.server ≡ s.server)
  unfolding stop_controller
  stop_controller_keeps w s = ground arith

  stop_server_lem :
      (s : Service F)
      → let t = stop_server s in
        (IsSound s → IsSound t)
        × (t.controller ≡ s.controller)
        × (t.started ≡ s.started)
        × (t.stop_closed ≡ s.stop_closed)
        × (t.server ≡ s.server)
        × (s.server ≢ none → t.serving ≡ false)
  unfolding stop_server
  stop_server_lem s = ground arith

  clean_up-IsDown :
      (w : Surroundings) (x : Error) (s : Service F)
      → IsSound s
      → (clean_up w x s).1 ≢ panicked
      → IsDown (clean_up w x s).0
  unfolding clean_up
  clean_up-IsDown w x s v h =
      ground (arith, stop_controller_lem w s v, stop_health_lem w (stop_controller w s).0)

  -- After a Start that returns an error the component is not started, its health server is down and
  -- holds no socket, its status is stopping, and no heartbeat runs.
  pub failed_start-IsDown :
      (w : Surroundings) (endpoint : String) (s : Service F) {x : Error}
      → IsSound s
      → (start_service w endpoint s).1 ≡ returned (some x)
      → IsDown (start_service w endpoint s).0
  unfolding start_service
  failed_start-IsDown w endpoint s {x} v h = elim (Option-cases tried.1) [
    | inl e ↦ absurd (refuted (rw (e, start_service) at h))
    | inr (y, e) ↦
        rw (e, start_service)
          (clean_up-IsDown w y tried.0
            (launch-IsSound w endpoint (record s { started = true }) (ground arith))
            (returned_not_panicked (rw (e, start_service) at h)))
  ]
    where
      tried : Service F × Option Error
      tried = launch w endpoint (record s { started = true })

      refuted : {x : Error} → returned none ≡ returned (some x) → ⊥
      refuted q = ground arith

  -- A Stop that returns takes the component down.
  pub stop-IsDown :
      (w : Surroundings) (s : Service F)
      → IsSound s
      → s.started ≡ true
      → (stop_service w s).1 ≡ returned none
      → IsDown (stop_service w s).0
        × ((stop_service w s).0.stop_closed ≡ true)
        × (s.server ≢ none → (stop_service w s).0.serving ≡ false)
  unfolding stop_service set_status
  stop-IsDown w s v on h = ground (
    arith,
    stop_controller_lem w marked (
        set_status-IsSound stopping (record s { started = false; stop_closed = true })
          (ground arith)),
    stop_controller_keeps w marked,
    stop_health_lem w (stop_server (stop_controller w marked).0),
    stop_server_lem (stop_controller w marked).0,
  )
    where
      marked : Service F
      marked = set_status stopping (record s { started = false; stop_closed = true })

  stop_health-IsSound : (w : Surroundings) (s : Service F) → IsSound s → IsSound (stop_health w s)
  unfolding stop_health Health.stop
  stop_health-IsSound w s v = ground arith

  stop_health_keeps : (w : Surroundings) (s : Service F) → (stop_health w s).started ≡ s.started
  unfolding stop_health
  stop_health_keeps w s = refl

  pub start_service-IsSound :
      (w : Surroundings) (endpoint : String) (s : Service F)
      → IsSound s
      → IsSound (start_service w endpoint s).0
  unfolding start_service clean_up
  start_service-IsSound w endpoint s v = ground (
    arith,
    launch-IsSound w endpoint (record s { started = true }) (ground arith),
    stop_controller_lem w (launch w endpoint (record s { started = true })).0,
    stop_health-IsSound w (stop_controller w (launch w endpoint (record s { started = true })).0).0,
  )

  pub stop_service-IsSound :
      (w : Surroundings) (s : Service F) → IsSound s → IsSound (stop_service w s).0
  unfolding stop_service
  stop_service-IsSound w s v = ground (
    arith,
    stop_controller_lem w marked (
        set_status-IsSound stopping (record s { started = false; stop_closed = true })
          (ground arith)),
    stop_server_lem (stop_controller w marked).0,
    stop_health-IsSound w (stop_server (stop_controller w marked).0),
  )
    where
      marked : Service F
      marked = set_status stopping (record s { started = false; stop_closed = true })

  pub stop_service_cases :
      (w : Surroundings) (s : Service F)
      → (s.started ≡ false → stop_service w s ≡ (s, returned none))
        × (((stop_service w s).1 ≡ panicked) ⊎ ((stop_service w s).1 ≡ returned none))
  unfolding stop_service
  stop_service_cases w s = ground arith

  pub stop_service_not_started :
      (w : Surroundings) (s : Service F) → (stop_service w s).0.started ≡ false
  unfolding stop_service set_status
  stop_service_not_started w s = ground (
    arith,
    stop_controller_keeps w marked,
    stop_server_lem (stop_controller w marked).0,
    stop_health_keeps w (stop_server (stop_controller w marked).0),
  )
    where
      marked : Service F
      marked = set_status stopping (record s { started = false; stop_closed = true })

  pub failed_start_not_started :
      (w : Surroundings) (endpoint : String) (s : Service F) (x : Error)
      → (start_service w endpoint s).1 ≡ returned (some x)
      → (start_service w endpoint s).0.started ≡ false
  unfolding start_service clean_up
  failed_start_not_started w endpoint s x h = ground arith
