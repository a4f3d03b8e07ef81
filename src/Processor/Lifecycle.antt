-- ===== src/Processor/Lifecycle.antt =====
-- Starting and stopping a processor of pkg/processor/processor.go.
use flowctl_sdk.Base.{◌≡◌, true, false, none, some, ◌⊎◌, arith}
use flowctl_sdk.Errors.{Error, returned, panicked}
use flowctl_sdk.Service.{Surroundings}
use flowctl_sdk.Service.Down.{
  IsDown, failed_start-IsDown, stop-IsDown, stop_service_cases, stop_service_not_started,
}
use flowctl_sdk.Service.Steps.{IsSound}
use flowctl_sdk.Service.Restart.{IsUp, start_ok-IsUp, restarted_service_panics}
use flowctl_sdk.Processor.{Processor, start, stop}

module _ {F : Type 0} (w : Surroundings) (p : Processor F) where
  -- Start and Stop of a sound processor on every branch. A started processor is not started again;
  -- a Start that returns no error leaves it up and started, and after one that returns an
  -- error it is down. A processor that is not started is not stopped; a started one is down
  -- afterwards, or its Stop panics.
  pub processor_outcomes :
      IsSound p.service
      → (p.service.started ≡ true → start w p ≡ (p, returned none))
        × (p.service.started ≡ false
            → (start w p).1 ≡ returned none
            → IsUp (start w p).0.service × ((start w p).0.service.started ≡ true))
        × ((x : Error)
            → p.service.started ≡ false
            → (start w p).1 ≡ returned (some x)
            → IsDown (start w p).0.service)
        × (p.service.started ≡ false → stop w p ≡ (p, returned none))
        × (p.service.started ≡ true
            → ((stop w p).1 ≡ panicked)
              ⊎ (((stop w p).1 ≡ returned none) × IsDown (stop w p).0.service))
  unfolding start stop
  processor_outcomes v = (
    λ on. ground arith,
    λ off h. ground (arith, start_ok-IsUp w p.config.endpoint p.service),
    λ x off h. ground (arith, failed_start-IsDown w p.config.endpoint p.service {x = x} v),
    λ off. ground (arith, stop_service_cases w p.service),
    λ on. ground (arith, stop_service_cases w p.service, stop-IsDown w p.service v),
  )

  -- A started processor whose Stop returned and whose next Start returned no error panics at the
  -- Stop after that.
  pub restarted_processor_panics :
      (w' w'' : Surroundings)
      → p.service.started ≡ true
      → (stop w p).1 ≡ returned none
      → (start w' (stop w p).0).1 ≡ returned none
      → (stop w'' (start w' (stop w p).0).0).1 ≡ panicked
  unfolding start stop
  restarted_processor_panics w' w'' on h k = ground (
    arith,
    stop_service_not_started w p.service,
    restarted_service_panics w w' w'' p.config.endpoint p.service,
  )
