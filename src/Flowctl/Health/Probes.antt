-- ===== src/Flowctl/Health/Probes.antt =====
-- When the probes of pkg/flowctl/health.go pass.
use flowctl_sdk.Base.{ℕ, ◌≡◌, ◌≢◌, List, [], ◌∷◌, Option, arith, All}
use flowctl_sdk.Errors.{Error}
use flowctl_sdk.Flowctl.Types.{healthy}
use flowctl_sdk.Flowctl.Health.{
  HealthServer, set_health, set_readiness_check, set_liveness_check, start, stop, handle_ready,
}
use flowctl_sdk.Flowctl.Health.Sockets.{Call, starts, stops, sets, readiness, liveness, apply, run}

abbrev pub NotHealing : Call → Type 0
NotHealing (sets status) = status ≢ healthy
NotHealing _ = Unit

abbrev NotReady : HealthServer → Type 0
NotReady s = s.status ≢ healthy

apply-NotReady :
    (c : Call) (s : HealthServer) (ks : List ℕ)
    → NotHealing c
    → NotReady s
    → NotReady (apply c s ks).0
unfolding apply start stop set_health set_readiness_check set_liveness_check
apply-NotReady (starts listen) s ks q n = ground arith
apply-NotReady (stops shutdown) s ks q n = ground arith
apply-NotReady (sets status) s ks q n = q
apply-NotReady (readiness check) s ks q n = n
apply-NotReady (liveness check) s ks q n = n

run-NotReady :
    (cs : List Call) (s : HealthServer) (ks : List ℕ)
    → All NotHealing cs
    → NotReady s
    → NotReady (run cs s ks).0
unfolding run
run-NotReady [] s ks q n = n
run-NotReady (c ∷ cs) s ks q n =
    let (t, ls) = apply c s ks in run-NotReady cs t ls q.1 (apply-NotReady c s ks q.0 n)

not-ready :
    (F : Type 0) (now : ℕ) (s : HealthServer) → NotReady s → (handle_ready {F = F} now s).code ≡ 503
unfolding handle_ready
not-ready F now s n = ground arith

stops-NotReady :
    (shutdown : Option Error) (s : HealthServer) (ks : List ℕ)
    → NotReady (apply (stops shutdown) s ks).0
unfolding apply stop
stops-NotReady shutdown s ks = ground arith

-- After Stop, `/ready` answers 503 through any further calls, a new Start included, while none of
-- them sets the status to healthy.
pub stop_not_ready :
    (F : Type 0) (now : ℕ) (shutdown : Option Error) (cs : List Call) (s : HealthServer)
    (ks : List ℕ)
    → All NotHealing cs
    → (handle_ready {F = F} now (run (stops shutdown ∷ cs) s ks).0).code ≡ 503
unfolding run
stop_not_ready F now shutdown cs s ks q =
    let (t, ls) = apply (stops shutdown) s ks in
    not-ready F now (run cs t ls).0 (run-NotReady cs t ls q (stops-NotReady shutdown s ks))
