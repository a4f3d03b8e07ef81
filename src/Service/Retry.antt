-- ===== src/Service/Retry.antt =====
-- A Start that failed after the heartbeat had begun, tried again.
use flowctl_sdk.Base.{
  ◌≡◌, refl, ◌∙◌, true, Option, none, some, String, inl, inr, arith, Option-cases,
}
use flowctl_sdk.Errors.{Error, returned, panicked}
use flowctl_sdk.Flowctl.Types.{starting}
use flowctl_sdk.Flowctl.Controller as Controller
use flowctl_sdk.Flowctl.Controller.{Controller}
use flowctl_sdk.Flowctl.Controller.Lifecycle.{IsShut, register-IsShut, stop-IsShut}
use flowctl_sdk.Service.{
  Service, Surroundings, set_status, start_health, stop_health, register_controller,
  start_controller, stop_controller, listen, mark_healthy, launch, clean_up, start_service,
  stop_service,
}
use flowctl_sdk.Service.Restart.{launch-Launched, start_ok-IsUp}
use flowctl_sdk.Service.Down.{returned_not_panicked}

none_is_not_some : {x : Error} → returned none ≡ returned (some x) → ⊥
none_is_not_some q = ground arith

module _ {F : Type 0} where
  -- There is a controller, and its stop channel is closed while its heartbeat is off.
  abbrev pub HasShut : Option (Controller F) → Type 0
  HasShut none = ⊥
  HasShut (some c) = IsShut c

  -- There is a controller whose next Stop panics.
  abbrev pub HasArmed : Option (Controller F) → Type 0
  HasArmed none = ⊥
  HasArmed (some c) =
      (c.config.enabled ≡ true) × (c.heartbeat_running ≡ true) × (c.stop_closed ≡ true)

  launch-started :
      (w : Surroundings) (endpoint : String) (s : Service F)
      → (launch w endpoint s).0.started ≡ s.started
  unfolding launch start_health register_controller start_controller listen mark_healthy set_status
  launch-started w endpoint s = ground arith

  clean_up-HasShut :
      (w : Surroundings) (x : Error) (s : Service F) (c : Controller F)
      → s.controller ≡ some c
      → c.config.enabled ≡ true
      → c.heartbeat_running ≡ true
      → (clean_up w x s).1 ≡ returned (some x)
      → HasShut (clean_up w x s).0.controller
  unfolding clean_up stop_controller stop_health
  clean_up-HasShut w x s c e en run h = ground (arith, stop-IsShut w.plane c en run)

  returned_same :
      (w : Surroundings) (y : Error) (s : Service F) {x : Error}
      → (clean_up w y s).1 ≡ returned (some x)
      → (clean_up w y s).1 ≡ returned (some y)
  unfolding clean_up
  returned_same w y s h = ground arith

  health_stage-HasShut :
      (w : Surroundings) (s t : Service F) {e : Option Error}
      → start_health w s ≡ (t, e)
      → t.controller ≡ s.controller
  unfolding start_health
  health_stage-HasShut w s t e = ground arith

  register_stage-HasShut :
      (w : Surroundings) (s t : Service F)
      → register_controller w s ≡ (t, none)
      → HasShut s.controller
      → HasShut t.controller
  unfolding register_controller
  register_stage-HasShut w s t e h = grind (arith, register-IsShut)

  shut-start :
      (c : Controller F)
      → IsShut c
      → (Controller.start c).1 ≡ none
      → let d = (Controller.start c).0 in
        (d.config.enabled ≡ true) × (d.heartbeat_running ≡ true) × (d.stop_closed ≡ true)
  unfolding Controller.start
  shut-start c v h = ground arith

  start_stage-HasArmed :
      (s t : Service F)
      → start_controller s ≡ (t, none)
      → HasShut s.controller
      → HasArmed t.controller
  unfolding start_controller
  start_stage-HasArmed s t e h = grind (arith, shut-start)

  armed-stop_panics :
      (w : Surroundings) (s : Service F)
      → s.started ≡ true
      → HasArmed s.controller
      → (stop_service w s).1 ≡ panicked
  unfolding stop_service stop_controller set_status Controller.stop
  armed-stop_panics w s on h = ground arith

  launch-HasArmed :
      (w : Surroundings) (endpoint : String) (s : Service F)
      → HasShut s.controller
      → (launch w endpoint s).1 ≡ none
      → HasArmed (launch w endpoint s).0.controller
  unfolding listen set_status
  launch-HasArmed w endpoint s v h =
      let l = launch-Launched w endpoint s h in
      ground (
        arith,
        health_stage-HasShut w (set_status starting s) l.s₁ l.health_up,
        register_stage-HasShut w l.s₁ l.s₂ l.registered,
        start_stage-HasArmed l.s₂ l.s₃ l.controlled,
        l.listening,
        l.result,
      )

  start-HasArmed :
      (w : Surroundings) (endpoint : String) (s : Service F)
      → HasShut s.controller
      → (start_service w endpoint s).1 ≡ returned none
      → HasArmed (start_service w endpoint s).0.controller
  unfolding start_service clean_up
  start-HasArmed w endpoint s v h = elim (Option-cases tried.1) [
    | inl e ↦ rw (e, start_service) (launch-HasArmed w endpoint (record s { started = true }) v e)
    | inr (x, e) ↦ ground arith
  ]
    where
      tried : Service F × Option Error
      tried = launch w endpoint (record s { started = true })

  clean_up_panics :
      (w : Surroundings) (x : Error) (s : Service F)
      → (clean_up w x s).1 ≡ panicked
      → HasArmed s.controller × ((clean_up w x s).0.started ≡ s.started)
  unfolding clean_up stop_controller Controller.stop Controller.close_conn
  clean_up_panics w x s h = ground arith

  -- A Start that panics does so in its clean-up, where the controller's stop channel is closed already;
  -- the component still counts as started.
  pub start_panics :
      (w : Surroundings) (endpoint : String) (s : Service F)
      → (start_service w endpoint s).1 ≡ panicked
      → HasArmed (launch w endpoint (record s { started = true })).0.controller
        × ((start_service w endpoint s).0.started ≡ true)
  unfolding start_service
  start_panics w endpoint s h = elim (Option-cases tried.1) [
    | inl n ↦ absurd (returned_not_panicked refl (rw (n, start_service) at h))
    | inr (y, n) ↦
        let (armed, keeps) = clean_up_panics w y tried.0 (rw (n, start_service) at h) in
        rw (n, start_service)
          (armed, keeps ∙ launch-started w endpoint (record s { started = true }))
  ]
    where
      tried : Service F × Option Error
      tried = launch w endpoint (record s { started = true })

  pub failed-HasShut :
      (w : Surroundings) (endpoint : String) (s : Service F) (c : Controller F) {x : Error}
      → (launch w endpoint (record s { started = true })).0.controller ≡ some c
      → c.config.enabled ≡ true
      → c.heartbeat_running ≡ true
      → (start_service w endpoint s).1 ≡ returned (some x)
      → HasShut (start_service w endpoint s).0.controller
  unfolding start_service
  failed-HasShut w endpoint s c {x} e en run h = elim (Option-cases tried.1) [
    | inl n ↦ absurd (none_is_not_some (rw (n, start_service) at h))
    | inr (y, n) ↦
        rw (n, start_service)
          (clean_up-HasShut w y tried.0 c e en run
            (returned_same w y tried.0 (rw (n, start_service) at h)))
  ]
    where
      tried : Service F × Option Error
      tried = launch w endpoint (record s { started = true })

  -- The first Start had its heartbeat running when it failed, as it does where the gRPC port is
  -- taken. A second Start then returns no error, and the Stop after it panics.
  pub retried_service_panics :
      (w w' w'' : Surroundings) (endpoint : String) (s : Service F) (c : Controller F) {x : Error}
      → (launch w endpoint (record s { started = true })).0.controller ≡ some c
      → c.config.enabled ≡ true
      → c.heartbeat_running ≡ true
      → (start_service w endpoint s).1 ≡ returned (some x)
      → (start_service w' endpoint (start_service w endpoint s).0).1 ≡ returned none
      → (stop_service w'' (start_service w' endpoint (start_service w endpoint s).0).0).1 ≡ panicked
  retried_service_panics w w' w'' endpoint s c {x} e en run h k =
      armed-stop_panics w'' (start_service w' endpoint first).0
        (start_ok-IsUp w' endpoint first k).1
        (start-HasArmed w' endpoint first (failed-HasShut w endpoint s c e en run h) k)
    where
      first : Service F
      first = (start_service w endpoint s).0
