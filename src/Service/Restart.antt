-- ===== src/Service/Restart.antt =====
-- A successful Start, and what a second life of the same component comes to.
use flowctl_sdk.Base.{
  ◌≡◌, ◌≢◌, true, false, Option, none, some, String, inl, inr, arith, Option-cases, ◌∙◌,
}
use flowctl_sdk.Errors.{Error, returned, panicked}
use flowctl_sdk.Flowctl.Types.{starting, healthy, stopping}
use flowctl_sdk.Flowctl.Controller as Controller
use flowctl_sdk.Flowctl.Controller.{Controller}
use flowctl_sdk.Flowctl.Health as Health
use flowctl_sdk.Service.{
  Service, Surroundings, Action, ◌>>◌, set_status, start_health, stop_health, register_controller,
  start_controller, listen, mark_healthy, launch, clean_up, start_service, stop_service,
  stop_server,
}
use flowctl_sdk.Service.Down.{stop_controller_keeps}

module _ {F : Type 0} where
  then_ok :
      (m k : Action (Service F)) (s : Service F)
      → ((m >> k) s).1 ≡ none
      → ((m s).1 ≡ none) × ((k (m s).0).1 ≡ none) × (((m >> k) s).0 ≡ (k (m s).0).0)
  then_ok m k s h = ground arith

  -- The stages of a launch that succeeds.
  pub record Launched (w : Surroundings) (endpoint : String) (s t : Service F) : Type 0 where
    pub s₁ : Service F
    pub s₂ : Service F
    pub s₃ : Service F
    pub s₄ : Service F
    pub health_up : start_health w (set_status starting s) ≡ (s₁, none)
    pub registered : register_controller w s₁ ≡ (s₂, none)
    pub controlled : start_controller s₂ ≡ (s₃, none)
    pub listening : listen w endpoint s₃ ≡ (s₄, none)
    pub result : t ≡ set_status healthy s₄

  pub launch-Launched :
      (w : Surroundings) (endpoint : String) (s : Service F)
      → (launch w endpoint s).1 ≡ none
      → Launched w endpoint s (launch w endpoint s).0
  unfolding launch mark_healthy
  launch-Launched w endpoint s h =
      let m₁ : Action (Service F) = start_health w >> register_controller w in
      let m₂ : Action (Service F) = m₁ >> start_controller in
      let m₃ : Action (Service F) = m₂ >> listen w endpoint in
      let s₀ = set_status starting s in
      let (a, b, c) = then_ok m₃ mark_healthy s₀ h in
      let (a₃, b₃, c₃) = then_ok m₂ (listen w endpoint) s₀ a in
      let (a₂, b₂, c₂) = then_ok m₁ start_controller s₀ a₃ in
      let (a₁, b₁, c₁) = then_ok (start_health w) (register_controller w) s₀ a₂ in
      record {
        s₁ = (start_health w s₀).0;
        s₂ = (m₁ s₀).0;
        s₃ = (m₂ s₀).0;
        s₄ = (m₃ s₀).0;
        health_up = ground arith;
        registered = ground arith;
        controlled = ground arith;
        listening = ground arith;
        result = ground arith;
      }

  -- A component that is up: it says so, its health server listens, calls are served, and the
  -- heartbeat of its controller runs.
  abbrev pub IsBeating : Option (Controller F) → Type 0
  IsBeating none = Unit
  IsBeating (some c) = (c.config.enabled ≡ true) × (c.heartbeat_running ≡ true)

  pub record IsUp (s : Service F) : Type 0 where
    pub says_healthy : s.health.status ≡ healthy
    pub probed : s.health.server ≢ none
    pub serves : (s.serving ≡ true) × (s.server ≢ none)
    pub beating : IsBeating s.controller

  health_stage :
      (w : Surroundings) (s t : Service F)
      → start_health w (set_status starting s) ≡ (t, none)
      → (t.health.server ≢ none)
        × (t.controller ≡ s.controller)
        × (t.started ≡ s.started)
        × (t.stop_closed ≡ s.stop_closed)
  unfolding start_health set_status Health.start
  health_stage w s t e = ground arith

  register_stage :
      (w : Surroundings) (s t : Service F)
      → register_controller w s ≡ (t, none)
      → (t.health ≡ s.health) × (t.started ≡ s.started) × (t.stop_closed ≡ s.stop_closed)
  unfolding register_controller
  register_stage w s t e = ground arith

  start_stage :
      (s t : Service F)
      → start_controller s ≡ (t, none)
      → (t.health ≡ s.health) × (t.started ≡ s.started) × (t.stop_closed ≡ s.stop_closed)
  unfolding start_controller
  start_stage s t e = ground arith

  register_ok_enabled :
      (w : Surroundings) (c : Controller F)
      → (Controller.register w.plane c).1 ≡ none
      → (Controller.register w.plane c).0.config.enabled ≡ true
  unfolding Controller.register
  register_ok_enabled w c h = ground arith

  start_ok_running :
      (c : Controller F)
      → c.config.enabled ≡ true
      → (Controller.start c).1 ≡ none
      → ((Controller.start c).0.config.enabled ≡ true)
        × ((Controller.start c).0.heartbeat_running ≡ true)
  unfolding Controller.start
  start_ok_running c en h = ground arith

  stage-IsBeating :
      (w : Surroundings) (s t u : Service F)
      → register_controller w s ≡ (t, none)
      → start_controller t ≡ (u, none)
      → IsBeating u.controller
  unfolding register_controller start_controller
  stage-IsBeating w s t u e k = grind (arith, register_ok_enabled, start_ok_running)

  -- A Start that returns no error leaves the component up and started, and its stop channel as it was.
  launched-IsUp :
      (w : Surroundings) (endpoint : String) (s : Service F)
      → (launch w endpoint s).1 ≡ none
      → let t = (launch w endpoint s).0 in
        IsUp t × (t.started ≡ s.started) × (t.stop_closed ≡ s.stop_closed)
  unfolding listen set_status
  launched-IsUp w endpoint s h =
      let l = launch-Launched w endpoint s h in
      ground (
        arith,
        health_stage w s l.s₁ l.health_up,
        register_stage w l.s₁ l.s₂ l.registered,
        start_stage l.s₂ l.s₃ l.controlled,
        stage-IsBeating w l.s₁ l.s₂ l.s₃ l.registered l.controlled,
        l.listening,
        l.result,
      )

  pub start_ok-IsUp :
      (w : Surroundings) (endpoint : String) (s : Service F)
      → (start_service w endpoint s).1 ≡ returned none
      → let t = (start_service w endpoint s).0 in
        IsUp t × (t.started ≡ true) × (t.stop_closed ≡ s.stop_closed)
  unfolding start_service clean_up
  start_ok-IsUp w endpoint s h = elim (Option-cases tried.1) [
    | inl e ↦ rw (e, start_service) (launched-IsUp w endpoint (record s { started = true }) e)
    | inr (x, e) ↦ ground arith
  ]
    where
      tried : Service F × Option Error
      tried = launch w endpoint (record s { started = true })

  closed-stop_panics :
      (w : Surroundings) (s : Service F)
      → s.started ≡ true
      → s.stop_closed ≡ true
      → (stop_service w s).1 ≡ panicked
  unfolding stop_service
  closed-stop_panics w s on closed = ground arith

  stop-closes :
      (w : Surroundings) (s : Service F)
      → s.started ≡ true
      → (stop_service w s).1 ≡ returned none
      → (stop_service w s).0.stop_closed ≡ true
  unfolding stop_service stop_health set_status stop_server
  stop-closes w s on h = ground (
    arith,
    stop_controller_keeps w
        (set_status stopping (record s { started = false; stop_closed = true })),
  )

  -- A component that was stopped and is started once more panics at its next Stop.
  pub restarted_service_panics :
      (w w' w'' : Surroundings) (endpoint : String) (s : Service F)
      → s.started ≡ true
      → (stop_service w s).1 ≡ returned none
      → (start_service w' endpoint (stop_service w s).0).1 ≡ returned none
      → (stop_service w'' (start_service w' endpoint (stop_service w s).0).0).1 ≡ panicked
  restarted_service_panics w w' w'' endpoint s on h k =
      let (up, started, kept) = start_ok-IsUp w' endpoint (stop_service w s).0 k in
      closed-stop_panics w'' (start_service w' endpoint (stop_service w s).0).0 started
        (kept ∙ stop-closes w s on h)
