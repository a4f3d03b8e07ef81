-- ===== src/Service/Steps.antt =====
-- What a sound component is, and that each step of Start keeps it sound.
use flowctl_sdk.Base.{◌≡◌, true, false, Option, none, some, String, inl, inr, arith, Option-cases}
use flowctl_sdk.Flowctl.Types.{HealthStatus, starting, healthy}
use flowctl_sdk.Flowctl.Controller as Controller
use flowctl_sdk.Flowctl.Controller.{Controller}
use flowctl_sdk.Flowctl.Health as Health
use flowctl_sdk.Flowctl.Health.Sockets.{OwnsSocket}
use flowctl_sdk.Service.{
  Service, Surroundings, Action, ◌>>◌, set_status, start_health, register_controller,
  start_controller, listen, mark_healthy, launch,
}

module _ {F : Type 0} where
  -- The controller, if there is one, is enabled, as New makes it.
  abbrev pub IsEnabled : Option (Controller F) → Type 0
  IsEnabled none = Unit
  IsEnabled (some c) = c.config.enabled ≡ true

  abbrev pub IsIdle : Option (Controller F) → Type 0
  IsIdle none = Unit
  IsIdle (some c) = c.heartbeat_running ≡ false

  pub record IsSound (s : Service F) : Type 0 where
    pub owns : OwnsSocket s.health s.sockets
    pub able : IsEnabled s.controller

  pub set_status-IsSound : (t : HealthStatus) (s : Service F) → IsSound s → IsSound (set_status t s)
  unfolding set_status
  set_status-IsSound t s v = ground arith

  start_health-IsSound :
      (w : Surroundings) (s : Service F) → IsSound s → IsSound (start_health w s).0
  unfolding start_health Health.start
  start_health-IsSound w s v = ground arith

  register-enabled :
      (w : Surroundings) (c : Controller F) → (Controller.register w.plane c).0.config ≡ c.config
  unfolding Controller.register
  register-enabled w c = ground arith

  register_controller-IsSound :
      (w : Surroundings) (s : Service F) → IsSound s → IsSound (register_controller w s).0
  unfolding register_controller
  register_controller-IsSound w s v = grind (arith, register-enabled)

  start-enabled : (c : Controller F) → (Controller.start c).0.config ≡ c.config
  unfolding Controller.start
  start-enabled c = ground arith

  start_controller-IsSound : (s : Service F) → IsSound s → IsSound (start_controller s).0
  unfolding start_controller
  start_controller-IsSound s v = grind (arith, start-enabled)

  listen-IsSound :
      (w : Surroundings) (endpoint : String) (s : Service F)
      → IsSound s
      → IsSound (listen w endpoint s).0
  unfolding listen
  listen-IsSound w endpoint s v = ground arith

  then-keeps :
      (P : Service F → Type 0) (m k : Action (Service F))
      → ((s : Service F) → P s → P (m s).0)
      → ((s : Service F) → P s → P (k s).0)
      → (s : Service F) → P s
      → P ((m >> k) s).0
  then-keeps P m k hm hk s v = elim (Option-cases (m s).1) [
    | inl e ↦ rw (e, ◌>>◌) (hk (m s).0 (hm s v))
    | inr (x, e) ↦ rw (e, ◌>>◌) (hm s v)
  ]

  pub launch-IsSound :
      (w : Surroundings) (endpoint : String) (s : Service F)
      → IsSound s
      → IsSound (launch w endpoint s).0
  unfolding launch mark_healthy
  launch-IsSound w endpoint s v =
      let m₁ : Action (Service F) = start_health w >> register_controller w in
      let m₂ : Action (Service F) = m₁ >> start_controller in
      let m₃ : Action (Service F) = m₂ >> listen w endpoint in
      let k₁ =
        then-keeps IsSound (start_health w) (register_controller w) (start_health-IsSound w)
          (register_controller-IsSound w) in
      let k₂ = then-keeps IsSound m₁ start_controller k₁ start_controller-IsSound in
      let k₃ = then-keeps IsSound m₂ (listen w endpoint) k₂ (listen-IsSound w endpoint) in
      then-keeps IsSound m₃ mark_healthy k₃ (λ t u. set_status-IsSound healthy t u)
        (set_status starting s) (set_status-IsSound starting s v)
