-- ===== src/Service.antt =====
-- What pkg/source/source.go and pkg/processor/processor.go share: the fields and the steps of Start
-- and Stop, each written twice in the code. A step returns the new state and its error.
pub mod Steps
pub mod Down
pub mod Restart
pub mod Retry
use flowctl_sdk.Base.{
  not, if◌then◌else◌, ℕ, Bool, true, false, List, Option, none, some, String, ◌<>◌,
}
use flowctl_sdk.Errors.{Error, wrapped, Result, good, bad, Outcome, returned, panicked}
use flowctl_sdk.Flowctl.Types.{HealthStatus, starting, healthy, stopping}
use flowctl_sdk.Flowctl.Controller as Controller
use flowctl_sdk.Flowctl.Controller.{ControlPlane, Controller}
use flowctl_sdk.Flowctl.Health as Health
use flowctl_sdk.Flowctl.Health.{HealthServer, set_health}

-- `server` is the gRPC server, by its listening socket, and `serving` says that it accepts calls; `sockets` are those of the health server.
pub record Service (F : Type 0) : Type 0 where
  pub controller : Option (Controller F)
  pub health : HealthServer
  pub sockets : List ℕ
  pub server : Option ℕ
  pub serving : Bool
  pub started : Bool
  pub stop_closed : Bool  -- the channel `stopCh` has been closed

-- What the system and the control plane answer during one Start or Stop.
pub record Surroundings : Type 0 where
  pub health_listen : Result ℕ
  pub plane : ControlPlane
  pub listen : Result ℕ
  pub shutdown : Option Error

abbrev pub Action : Type 0 → Type 0
Action S = S → S × Option Error

-- `if err := m; err != nil { return err }` before `k`.
infixl 5 ◌>>◌
abbrev pub ◌>>◌ : {S : Type 0} → Action S → Action S → Action S
◌>>◌ m k s = let (s', e) = m s in elim e [ none ↦ k s' | some x ↦ (s', some x) ]

module _ {F : Type 0} where
  unfoldable pub set_status : HealthStatus → Service F → Service F
  unfolding set_health
  set_status status s = record s { health = set_health status s.health }

  -- `s.health.Start()`.
  unfoldable pub start_health : Surroundings → Action (Service F)
  start_health w s =
      let (h, ks, e) = Health.start w.health_listen s.health s.sockets in
      let s' = record s { health = h; sockets = ks } in
      elim e [ none ↦ (s', none) | some x ↦ (s', some (wrapped "failed to start health server" x)) ]

  -- `s.health.Stop()`, whose error is printed or dropped.
  unfoldable pub stop_health : Surroundings → Service F → Service F
  stop_health w s =
      let (h, ks, e) = Health.stop w.shutdown s.health s.sockets in
      record s { health = h; sockets = ks }

  -- `if s.controller != nil { s.controller.Register(ctx) … s.controller.Start(ctx) … }`.
  unfoldable pub register_controller : Surroundings → Action (Service F)
  register_controller w s = elim s.controller [
    | none ↦ (s, none)
    | some c ↦
        let (c', e) = Controller.register w.plane c in
        let s' = record s { controller = some c' } in
        elim e [
          | none ↦ (s', none)
          | some x ↦ (s', some (wrapped "failed to register with flowctl" x))
        ]
  ]

  unfoldable pub start_controller : Action (Service F)
  start_controller s = elim s.controller [
    | none ↦ (s, none)
    | some c ↦
        let (c', e) = Controller.start c in
        let s' = record s { controller = some c' } in
        elim e [
          | none ↦ (s', none)
          | some x ↦ (s', some (wrapped "failed to start flowctl controller" x))
        ]
  ]

  -- `if s.controller != nil { s.controller.Stop() }`, whose error is printed or dropped. The flag
  -- says that it panicked.
  unfoldable pub stop_controller : Surroundings → Service F → Service F × Bool
  stop_controller w s = elim s.controller [
    | none ↦ (s, false)
    | some c ↦
        let (c', o) = Controller.stop w.plane c in
        let s' = record s { controller = some c' } in
        elim o [ returned e ↦ (s', false) | panicked ↦ (s', true) ]
  ]

  -- `net.Listen`, and the gRPC server on the listener.
  unfoldable pub listen : Surroundings → String → Action (Service F)
  listen w endpoint s = elim w.listen [
    | bad e ↦ (s, some (wrapped ("failed to listen on " <> endpoint) e))
    | good l ↦ (record s { server = some l; serving = true }, none)
  ]

  unfoldable pub mark_healthy : Action (Service F)
  mark_healthy s = (set_status healthy s, none)

  -- What Start does between setting `started` and its return.
  unfoldable pub launch : Surroundings → String → Action (Service F)
  launch w endpoint s =
      (start_health w
          >> register_controller w
          >> start_controller
          >> listen w endpoint
          >> mark_healthy)
        (set_status starting s)

  -- The deferred function of Start, on an error.
  unfoldable pub clean_up : Surroundings → Error → Service F → Service F × Outcome
  clean_up w x s =
      let (s', p) = stop_controller w s in
      if p
      then (s', panicked)
      else (record (stop_health w s') { started = false }, returned (some x))

  -- Start, behind its tests.
  unfoldable pub start_service : Surroundings → String → Service F → Service F × Outcome
  unfolding clean_up
  start_service w endpoint s =
      let (s', e) = launch w endpoint (record s { started = true }) in
      elim e [ none ↦ (s', returned none) | some x ↦ clean_up w x s' ]

  -- `GracefulStop` of the gRPC server, if there is one.
  unfoldable pub stop_server : Service F → Service F
  stop_server s = elim s.server [ none ↦ s | some l ↦ record s { serving = false } ]

  -- Stop. Closing the channel a second time panics.
  unfoldable pub stop_service : Surroundings → Service F → Service F × Outcome
  unfolding stop_server
  stop_service w s =
      if not s.started
      then (s, returned none)
      else if s.stop_closed
      then (record s { started = false }, panicked)
      else let (s', p) =
          stop_controller w
            (set_status stopping (record s { started = false; stop_closed = true })) in
        if p then (s', panicked) else (stop_health w (stop_server s'), returned none)
