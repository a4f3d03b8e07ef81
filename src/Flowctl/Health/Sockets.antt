-- ===== src/Flowctl/Health/Sockets.antt =====
-- The listening socket of pkg/flowctl/health.go over any sequence of calls.
use flowctl_sdk.Base.{ℕ, ◌≡◌, Bool, List, [], ◌∷◌, Option, none, some, arith}
use flowctl_sdk.Errors.{Error, Result}
use flowctl_sdk.Flowctl.Types.{HealthStatus}
use flowctl_sdk.Flowctl.Health.{
  HealthServer, new_health_server, set_health, set_readiness_check, set_liveness_check, start, stop,
}

-- The calls that change the server, with what the system answers.
pub data Call : Type 0 where
  starts : Result ℕ → Call
  stops : Option Error → Call
  sets : HealthStatus → Call
  readiness liveness : (ℕ → Bool) → Call

unfoldable pub apply : Call → HealthServer → List ℕ → HealthServer × List ℕ
apply (starts listen) s ks = let (t, ls, e) = start listen s ks in (t, ls)
apply (stops shutdown) s ks = let (t, ls, e) = stop shutdown s ks in (t, ls)
apply (sets status) s ks = (set_health status s, ks)
apply (readiness check) s ks = (set_readiness_check check s, ks)
apply (liveness check) s ks = (set_liveness_check check s, ks)

unfoldable pub run : List Call → HealthServer → List ℕ → HealthServer × List ℕ
run [] s ks = (s, ks)
run (c ∷ cs) s ks = let (t, ls) = apply c s ks in run cs t ls

abbrev pub sockets_of : Option ℕ → List ℕ
sockets_of none = []
sockets_of (some l) = l ∷ []

-- The server, its listener and the open sockets are one and the same.
pub record OwnsSocket (s : HealthServer) (ks : List ℕ) : Type 0 where
  pub same : s.server ≡ s.listener
  pub exact : ks ≡ sockets_of s.listener

apply-OwnsSocket :
    (c : Call) (s : HealthServer) (ks : List ℕ)
    → OwnsSocket s ks
    → OwnsSocket (apply c s ks).0 (apply c s ks).1
unfolding apply start stop set_health set_readiness_check set_liveness_check
apply-OwnsSocket (starts listen) s ks o = ground arith
apply-OwnsSocket (stops shutdown) s ks o = ground arith
apply-OwnsSocket _ s ks o = ground arith

run-OwnsSocket :
    (cs : List Call) (s : HealthServer) (ks : List ℕ)
    → OwnsSocket s ks
    → OwnsSocket (run cs s ks).0 (run cs s ks).1
unfolding run
run-OwnsSocket [] s ks o = o
run-OwnsSocket (c ∷ cs) s ks o =
    let (t, ls) = apply c s ks in run-OwnsSocket cs t ls (apply-OwnsSocket c s ks o)

-- Over any calls on a new server, started twice, stopped twice or failing to listen, the open
-- sockets are exactly the listener that the server holds: one while it runs, else none.
pub run_sockets :
    (now port : ℕ) (cs : List Call)
    → let (s, ks) = run cs (new_health_server now port) [] in OwnsSocket s ks
unfolding new_health_server
run_sockets now port cs = run-OwnsSocket cs _ [] (ground arith)
