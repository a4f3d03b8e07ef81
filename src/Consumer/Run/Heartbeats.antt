-- ===== src/Consumer/Run/Heartbeats.antt =====
-- The period of the heartbeats that Run of pkg/consumer/consumer.go sends.
use flowctl_sdk.Base.{ℕ, ◌*◌, ◌<◌, ◌≡◌, ltb, if◌then◌else◌, none, Option, arith}
use flowctl_sdk.Errors.{Error}
use flowctl_sdk.Flowctl.Controller.{ComponentInfo}
use flowctl_sdk.Consumer.Run.{
  Prepared, ticking, ticker_panics, component_info, heartbeat_period, new_ticker, announce,
}

ticks_or_panics :
    (n : ℕ)
    → 0 < n
    → n < 18446744073710
    → new_ticker (heartbeat_period n)
      ≡ (if ltb n 9223372036855 then ticking (n * 1000000) else ticker_panics)
unfolding heartbeat_period new_ticker
ticks_or_panics n h k = ground arith

-- The configured interval is in nanoseconds already, and is taken for milliseconds: a consumer that
-- registered sends its heartbeats a million times as seldom as configured, where that is possible, and
-- an interval from about 2.6 to 5.1 hours makes the process panic.
pub announce_interval :
    (register : ComponentInfo → Option Error) (p : Prepared)
    → register (component_info p) ≡ none
    → 0 < p.config.flowctl.heartbeat_interval
    → p.config.flowctl.heartbeat_interval < 18446744073710
    → announce none register p ≡ (
        if ltb p.config.flowctl.heartbeat_interval 9223372036855
        then ticking (p.config.flowctl.heartbeat_interval * 1000000)
        else ticker_panics)
unfolding announce
announce_interval register p h k l =
    rw (h, announce) (ticks_or_panics p.config.flowctl.heartbeat_interval k l)
