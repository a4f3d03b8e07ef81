-- ===== src/Flowctl/Health.antt =====
-- pkg/flowctl/health.go. A method holds the lock while it touches the fields, so it is one step. The
-- outcome of `net.Listen` and of the HTTP server's `Shutdown` are arguments, and so is the clock, in
-- seconds. `sockets` are the listening sockets that the process has open for this server.
pub mod Sockets
pub mod Probes
use flowctl_sdk.Base.{
  ℕ, ◌-◌, Bool, true, not, ◌&&◌, List, [], ◌∷◌, String, Option, none, some, is_some, ◌==◌,
  if◌then◌else◌,
}
use flowctl_sdk.Base.Dict.{Dict}
use flowctl_sdk.Errors.{Error, Result, good, bad}
use flowctl_sdk.Flowctl.Types.{
  HealthStatus, starting, stopping, health_status_text, is_healthy, is_unhealthy,
}
use flowctl_sdk.Flowctl.Metrics.{MetricValue}

-- A listener is the number of its socket, and `server` the HTTP server on that listener. A check is
-- asked at a time.
pub record HealthServer : Type 0 where
  pub status : HealthStatus
  pub port : ℕ
  pub server : Option ℕ
  pub listener : Option ℕ
  pub start_time : ℕ
  pub readiness_check : ℕ → Bool
  pub liveness_check : ℕ → Bool

unfoldable pub new_health_server : ℕ → ℕ → HealthServer
new_health_server now port = record {
  status = starting;
  port = port;
  server = none;
  listener = none;
  start_time = now;
  readiness_check = λ t. true;
  liveness_check = λ t. true;
}

unfoldable pub set_health : HealthStatus → HealthServer → HealthServer
set_health status s = record s { status = status }

unfoldable pub get_health : HealthServer → HealthStatus
get_health s = s.status

unfoldable pub set_readiness_check : (ℕ → Bool) → HealthServer → HealthServer
set_readiness_check check s = record s { readiness_check = check }

unfoldable pub set_liveness_check : (ℕ → Bool) → HealthServer → HealthServer
set_liveness_check check s = record s { liveness_check = check }

-- `listener.Close()`.
unfoldable pub close_socket : ℕ → List ℕ → List ℕ
close_socket l [] = []
close_socket l (k ∷ ks) = if k == l then ks else k ∷ close_socket l ks

-- The result of `Listen` is used only where it is called.
unfoldable pub start : Result ℕ → HealthServer → List ℕ → HealthServer × List ℕ × Option Error
start listen s sockets = if is_some s.server then (s, sockets, none) else bind listen
  where
    bind : Result ℕ → HealthServer × List ℕ × Option Error
    bind (bad e) = (s, sockets, some e)
    bind (good l) = (record s { listener = some l; server = some l }, l ∷ sockets, none)

-- `shutdown` is what `server.Shutdown` returns.
unfoldable pub stop : Option Error → HealthServer → List ℕ → HealthServer × List ℕ × Option Error
unfolding close_socket
stop shutdown s sockets = elim s.server [
  | none ↦ (stopped, sockets, none)
  | some l ↦ (stopped, close_listener s.listener, shutdown)
]
  where
    stopped : HealthServer
    stopped = record s { listener = none; server = none; status = stopping }

    close_listener : Option ℕ → List ℕ
    close_listener none = sockets
    close_listener (some l) = close_socket l sockets

-- The status code and the body of a response.
pub record HealthResponse (F : Type 0) : Type 0 where
  pub code : ℕ
  pub status_text : String
  pub uptime : ℕ
  pub timestamp : ℕ
  pub metrics : Option (Dict (MetricValue F))

module _ {F : Type 0} where
  unfoldable pub respond : ℕ → Option (Dict (MetricValue F)) → ℕ → HealthServer → HealthResponse F
  respond code metrics now s = record {
    code = code;
    status_text = health_status_text s.status;
    uptime = now - s.start_time;
    timestamp = now;
    metrics = metrics;
  }

  -- `/health`.
  unfoldable pub handle_health : ℕ → HealthServer → HealthResponse F
  unfolding respond
  handle_health now s = respond 200 none now s

  -- `/ready`.
  unfoldable pub handle_ready : ℕ → HealthServer → HealthResponse F
  unfolding respond is_healthy
  handle_ready now s =
      respond (if is_healthy s.status && s.readiness_check now then 200 else 503) none now s

  -- `/live`.
  unfoldable pub handle_live : ℕ → HealthServer → HealthResponse F
  unfolding respond is_unhealthy
  handle_live now s =
      respond (if not (is_unhealthy s.status) && s.liveness_check now then 200 else 500) none now s

  -- `/metrics`: `snapshot` is what GetMetrics returns, if there are metrics.
  unfoldable pub handle_metrics :
      Option (Dict (MetricValue F)) → ℕ → HealthServer → HealthResponse F
  unfolding respond
  handle_metrics none now s = respond 200 (some []) now s
  handle_metrics (some snapshot) now s = respond 200 (some snapshot) now s
