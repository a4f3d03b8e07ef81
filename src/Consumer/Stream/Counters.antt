-- ===== src/Consumer/Stream/Counters.antt =====
-- The counters of pkg/consumer/service.go's service over its whole life.
use flowctl_sdk.Base.{◌≡◌, refl, Bool, List, [], ◌∷◌, String, arith}
use flowctl_sdk.Errors.{Error}
use flowctl_sdk.Consumer.{Consumer, new_consumer_service, stop}
use flowctl_sdk.Consumer.Stream.{Round, Tally, count_consumed, count_failed, consume_loop, consume}
use flowctl_sdk.Consumer.Stream.Turns.{refuses, closes, skips, consumes, fails, round-Happens}

-- Each pair of counters that HealthCheck reports agrees.
pub record IsConsistent (c : Consumer) : Type 0 where
  pub successes : c.success_count ≡ c.events_consumed
  pub failures : c.error_count ≡ c.events_failed

-- A service in use: streams one after another, and stops.
pub data Reach (fce : Error → Error) : Consumer → Type 0 where
  created :
      (name : String) (types : List String) (has_handler : Bool)
      → Reach fce (new_consumer_service name types has_handler)
  streamed : {c : Consumer} (rs : List Round) → Reach fce c → Reach fce (consume fce rs c).0
  stopped : {c : Consumer} → Reach fce c → Reach fce (stop c)

count_consumed-IsConsistent : (c : Consumer) → IsConsistent c → IsConsistent (count_consumed c)
unfolding count_consumed
count_consumed-IsConsistent c v = ground arith

count_failed-IsConsistent : (c : Consumer) → IsConsistent c → IsConsistent (count_failed c)
unfolding count_failed
count_failed-IsConsistent c v = ground arith

stop-IsConsistent : (c : Consumer) → IsConsistent c → IsConsistent (stop c)
unfolding stop
stop-IsConsistent c v = ground arith

module _ (fce : Error → Error) where
  loop-IsConsistent :
      (rs : List Round) (c : Consumer) (l : Tally)
      → IsConsistent c
      → IsConsistent (consume_loop fce rs c l).0
  unfolding consume_loop
  loop-IsConsistent [] c l v = v
  loop-IsConsistent (r ∷ rs) c l v = elim (round-Happens fce r c l _ refl) [
    | refuses y p q ↦ rw (q, consume_loop) v
    | closes y u w q ↦ rw (q, consume_loop) v
    | skips e u y q ↦ rw (q, consume_loop) (loop-IsConsistent rs _ _ v)
    | consumes e u y w q ↦
        rw (q, consume_loop) (loop-IsConsistent rs _ _ (count_consumed-IsConsistent c v))
    | fails e y u w g k q ↦
        rw (q, consume_loop) (loop-IsConsistent rs _ _ (count_failed-IsConsistent c v))
  ]

  -- In every service in use, after any streams and stops, however these ended, the success count is
  -- that of the consumed events and the error count that of the failed ones.
  pub counters_agree : {c : Consumer} → Reach fce c → IsConsistent c
  unfolding new_consumer_service consume
  counters_agree (created name types h) = record { successes = refl; failures = refl }
  counters_agree (streamed {c} rs s) = loop-IsConsistent rs c _ (counters_agree s)
  counters_agree (stopped {c} s) = stop-IsConsistent c (counters_agree s)
