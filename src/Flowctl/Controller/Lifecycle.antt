-- ===== src/Flowctl/Controller/Lifecycle.antt =====
-- Starting and stopping the controller of pkg/flowctl/controller.go, with its heartbeat goroutine.
use flowctl_sdk.Base.{
  ℕ, ◌+◌, ◌-◌, ◌≤◌, ◌<◌, ◌≡◌, ◌≢◌, Bool, true, false, String, Option, none, ◌↔◌, arith,
}
use flowctl_sdk.Base.Dict.{Dict}
use flowctl_sdk.Errors.{returned, panicked, Error}
use flowctl_sdk.Flowctl.Types.{Config}
use flowctl_sdk.Flowctl.Metrics.{MetricValue}
use flowctl_sdk.Flowctl.Controller.{
  ControlPlane, Controller, new_controller, register, start, stop, update_metrics,
}

-- One step of the program: a method that returns, or the exit of a heartbeat goroutine, which
-- leaves its loop when the context is done or the stop channel is closed.
pub data Step {F : Type 0} (c : Controller F) : Controller F → Type 0 where
  registers : (cp : ControlPlane) → Step c (register cp c).0
  starts : Step c (start c).0
  stops : (cp : ControlPlane) (e : Option Error) → (stop cp c).1 ≡ returned e → Step c (stop cp c).0
  updates : (m : Dict (MetricValue F)) → Step c (update_metrics m c)
  context_done : 0 < c.loops → Step c (record c { loops = c.loops - 1 })
  sees_stop : 0 < c.loops → c.stop_closed ≡ true → Step c (record c { loops = c.loops - 1 })

pub data Reach {F : Type 0} (c : Controller F) : Controller F → Type 0 where
  here : Reach c c
  next : {d e : Controller F} → Reach c d → Step d e → Reach c e

abbrev as_number : Bool → ℕ
as_number true = 1
as_number false = 0

-- A live goroutine is the running one, or one that the closed channel tells to leave.
pub record Inv {F : Type 0} (c : Controller F) : Type 0 where
  pub bounded : c.loops ≤ as_number c.heartbeat_running + as_number c.stop_closed
  pub connected : c.heartbeat_running ≡ true → c.conn ≢ none
  pub allowed : c.heartbeat_running ≡ true → c.config.enabled ≡ true

new-Inv :
    {F : Type 0} (stamp : String) (config : Config) → Inv {F = F} (new_controller stamp config)
unfolding new_controller
new-Inv stamp config = ground arith

Step-Inv : {F : Type 0} {c d : Controller F} → Step c d → Inv c → Inv d
unfolding register start stop update_metrics
Step-Inv (registers cp) v = ground arith
Step-Inv starts v = ground arith
Step-Inv (stops cp e h) v = ground arith
Step-Inv (updates m) v = ground arith
Step-Inv (context_done h) v = ground arith
Step-Inv (sees_stop h k) v = ground arith

Reach-Inv : {F : Type 0} {c d : Controller F} → Inv c → Reach c d → Inv d
Reach-Inv v here = v
Reach-Inv v (next r st) = Step-Inv st (Reach-Inv v r)

-- However often the methods are called and in whatever order the goroutines leave: before the stop
-- channel is closed at most one heartbeat loop is alive, and none unless the heartbeat runs; after
-- that at most two. A running heartbeat has a connection, and its integration is enabled.
pub heartbeat_bounded :
    {F : Type 0} (stamp : String) (config : Config) {c : Controller F}
    → Reach (new_controller stamp config) c
    → (c.loops ≤ 2)
      × (c.stop_closed ≡ false → c.loops ≤ 1)
      × (c.stop_closed ≡ false → c.heartbeat_running ≡ false → c.loops ≡ 0)
      × (c.heartbeat_running ≡ true → (c.conn ≢ none) × (c.config.enabled ≡ true))
heartbeat_bounded stamp config {c} r =
    let v = Reach-Inv (new-Inv stamp config) r in ground (arith, v)

-- Stop panics exactly where it would close its channel a second time; else it returns and leaves
-- the heartbeat not running, and the closed channel closed.
pub controller_stop_outcomes :
    {F : Type 0} (cp : ControlPlane) (c : Controller F)
    → (((stop cp c).1 ≡ panicked)
        ↔ ((c.config.enabled ≡ true) × (c.heartbeat_running ≡ true) × (c.stop_closed ≡ true)))
      × (c.config.enabled ≡ true → (stop cp c).0.heartbeat_running ≡ false)
      × (c.config.enabled ≡ true → (stop cp c).1 ≡ returned none → (stop cp c).0.conn ≡ none)
unfolding stop
controller_stop_outcomes cp c = ground arith

-- What a shut controller is like: its channel is closed for good.
pub record IsShut {F : Type 0} (c : Controller F) : Type 0 where
  pub closed : c.stop_closed ≡ true
  pub idle : c.heartbeat_running ≡ false
  pub able : c.config.enabled ≡ true

pub stop-IsShut :
    {F : Type 0} (cp : ControlPlane) (c : Controller F)
    → c.config.enabled ≡ true
    → c.heartbeat_running ≡ true
    → IsShut (stop cp c).0
unfolding stop
stop-IsShut cp c en run = ground arith

pub register-IsShut :
    {F : Type 0} (cp : ControlPlane) (c : Controller F) → IsShut c → IsShut (register cp c).0
unfolding register
register-IsShut cp c v = ground arith

register-conn :
    {F : Type 0} (cp : ControlPlane) (c : Controller F)
    → (register cp c).1 ≡ none
    → (register cp c).0.conn ≢ none
unfolding register
register-conn cp c h = ground arith

shut-start-stop_panics :
    {F : Type 0} (cp : ControlPlane) (c : Controller F)
    → IsShut c
    → c.conn ≢ none
    → (stop cp (start c).0).1 ≡ panicked
unfolding start stop
shut-start-stop_panics cp c v k = ground arith

-- A controller that was stopped while its heartbeat ran, and is registered and started once more,
-- panics at its next Stop.
pub restarted_controller_panics :
    {F : Type 0} (cp cp' cp'' : ControlPlane) (c : Controller F)
    → c.config.enabled ≡ true
    → c.heartbeat_running ≡ true
    → (register cp' (stop cp c).0).1 ≡ none
    → (stop cp'' (start (register cp' (stop cp c).0).0).0).1 ≡ panicked
restarted_controller_panics cp cp' cp'' c en run h =
    shut-start-stop_panics cp'' (register cp' (stop cp c).0).0
      (register-IsShut cp' (stop cp c).0 (stop-IsShut cp c en run))
      (register-conn cp' (stop cp c).0 h)
