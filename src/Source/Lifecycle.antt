-- ===== src/Source/Lifecycle.antt =====
-- Starting and stopping a source of pkg/source/source.go.
use flowctl_sdk.Base.{◌≡◌, ◌≢◌, true, false, none, some, ◌⊎◌, arith}
use flowctl_sdk.Errors.{Error, sentinel, producer_not_set, returned, panicked}
use flowctl_sdk.Flowctl.Controller.{Controller}
use flowctl_sdk.Service.{Surroundings, launch}
use flowctl_sdk.Service.Down.{
  IsDown, failed_start-IsDown, stop-IsDown, stop_service_cases, stop_service_not_started,
  failed_start_not_started,
}
use flowctl_sdk.Service.Steps.{IsSound}
use flowctl_sdk.Service.Restart.{IsUp, start_ok-IsUp, restarted_service_panics}
use flowctl_sdk.Service.Retry.{
  HasShut, HasArmed, failed-HasShut, start_panics, retried_service_panics,
}
use flowctl_sdk.Source.{Source, start, stop}

module _ {F : Type 0} (w : Surroundings) (s : Source F) where
  -- Start of a sound source, whose health server holds just its own socket and whose controller,
  -- if any, is enabled. A started source is left as it is, and one with no producer is refused
  -- unchanged. A Start that returns no error leaves the source up and started. One with a producer
  -- that returns an error leaves it not started, with the status stopping, no health server or
  -- socket, and no heartbeat that runs; but where the heartbeat was running when Start failed, the
  -- channel that stops the heartbeat stays closed. Start panics only in that clean-up, where the
  -- channel was closed before, and then leaves the source started.
  pub start_outcomes :
      IsSound s.service
      → let launched = (launch w s.config.endpoint (record s.service { started = true })).0 in
        (s.service.started ≡ true → start w s ≡ (s, returned none))
        × (s.service.started ≡ false
            → s.producer ≡ none
            → s.stream_producer ≡ none
            → start w s ≡ (s, returned (some (sentinel producer_not_set))))
        × (s.service.started ≡ false
            → (start w s).1 ≡ returned none
            → IsUp (start w s).0.service × ((start w s).0.service.started ≡ true))
        × ((x : Error)
            → s.service.started ≡ false
            → (s.producer ≢ none) ⊎ (s.stream_producer ≢ none)
            → (start w s).1 ≡ returned (some x)
            → IsDown (start w s).0.service
              × ((c : Controller F)
                  → launched.controller ≡ some c
                  → c.config.enabled ≡ true
                  → c.heartbeat_running ≡ true
                  → HasShut (start w s).0.service.controller))
        × ((start w s).1 ≡ panicked
            → HasArmed launched.controller × ((start w s).0.service.started ≡ true))
  unfolding start
  start_outcomes v = (
    λ on. ground arith,
    λ off p q. ground arith,
    λ off h. ground (arith, start_ok-IsUp w s.config.endpoint s.service),
    λ x off p h. (
      ground (arith, failed_start-IsDown w s.config.endpoint s.service {x = x} v),
      λ c e en run. ground (arith, failed-HasShut w s.config.endpoint s.service c {x = x} e en run),
    ),
    λ h. ground (arith, start_panics w s.config.endpoint s.service),
  )

  -- Stop of a sound source on every branch: a source that is not started is left as it is; a
  -- started one is down afterwards, serves no call and has closed its channel, or its Stop panics.
  pub stop_outcomes :
      IsSound s.service
      → (s.service.started ≡ false → stop w s ≡ (s, returned none))
        × (s.service.started ≡ true
            → ((stop w s).1 ≡ panicked)
              ⊎ (((stop w s).1 ≡ returned none)
                  × IsDown (stop w s).0.service
                  × ((stop w s).0.service.stop_closed ≡ true)
                  × (s.service.server ≢ none → (stop w s).0.service.serving ≡ false)))
  unfolding stop
  stop_outcomes v = ground (arith, stop_service_cases w s.service, stop-IsDown w s.service v)

  -- A started source whose Stop returned and whose next Start, with a producer, returned no error,
  -- panics at the Stop after that.
  pub restarted-stop_panics :
      (w' w'' : Surroundings)
      → s.service.started ≡ true
      → (stop w s).1 ≡ returned none
      → (s.producer ≢ none) ⊎ (s.stream_producer ≢ none)
      → (start w' (stop w s).0).1 ≡ returned none
      → (stop w'' (start w' (stop w s).0).0).1 ≡ panicked
  unfolding start stop
  restarted-stop_panics w' w'' on h p k = ground (
    arith,
    stop_service_not_started w s.service,
    restarted_service_panics w w' w'' s.config.endpoint s.service,
  )

  -- A source whose Start failed while its heartbeat was running, as where the gRPC port is taken,
  -- and whose next Start returned no error, panics at its first Stop.
  pub retried-stop_panics :
      (w' w'' : Surroundings) (c : Controller F) (x : Error)
      → s.service.started ≡ false
      → (s.producer ≢ none) ⊎ (s.stream_producer ≢ none)
      → (launch w s.config.endpoint (record s.service { started = true })).0.controller ≡ some c
      → c.config.enabled ≡ true
      → c.heartbeat_running ≡ true
      → (start w s).1 ≡ returned (some x)
      → (start w' (start w s).0).1 ≡ returned none
      → (stop w'' (start w' (start w s).0).0).1 ≡ panicked
  unfolding start stop
  retried-stop_panics w' w'' c x off p e en run h k = ground (
    arith,
    failed_start_not_started w s.config.endpoint s.service x,
    retried_service_panics w w' w'' s.config.endpoint s.service c {x = x} e en run,
  )
