-- ===== src/Consumer.antt =====
-- pkg/consumer: a component that takes events out of the pipeline. This file is the state of
-- pkg/consumer/service.go and its calls but for Consume, which is in Consumer/Stream.antt.
pub mod Config
pub mod Stream
pub mod Run
use flowctl_sdk.Base.{
  ℕ, Bool, true, false, List, [], ◌∷◌, String, Option, none, some, if◌then◌else◌,
}
use flowctl_sdk.Base.Dict.{Dict, put}

-- The configuration, which only GetInfo in Consumer/Run.antt reads, is left out. `has_handler`
-- says that `onEvent` is not nil; what it does is in the script of a stream. The keys of
-- `input_type_set` are the types; the counters are `atomic.Int64`.
pub record Consumer : Type 0 where
  pub consumer_name : String
  pub input_types : List String
  pub input_type_set : Dict Bool
  pub has_handler : Bool
  pub stop_closed : Bool  -- the channel `stopCh` has been closed
  pub events_consumed : ℕ
  pub events_failed : ℕ
  pub error_count : ℕ
  pub success_count : ℕ

-- `for _, t := range inputTypes { types[t] = struct{}{} }`.
unfoldable pub add_types : List String → Dict Bool → Dict Bool
add_types [] m = m
add_types (t ∷ ts) m = add_types ts (put t true m)

unfoldable pub new_consumer_service : String → List String → Bool → Consumer
unfolding add_types
new_consumer_service name types has_handler = record {
  consumer_name = name;
  input_types = types;
  input_type_set = add_types types [];
  has_handler = has_handler;
  stop_closed = false;
  events_consumed = 0;
  events_failed = 0;
  error_count = 0;
  success_count = 0;
}

-- `decimal` is the verb %d.
unfoldable pub get_metrics : (ℕ → String) → Consumer → Dict String
get_metrics decimal c =
    ("events_consumed", decimal c.events_consumed)
    ∷ ("events_failed", decimal c.events_failed)
    ∷ ("error_count", decimal c.error_count)
    ∷ ("success_count", decimal c.success_count)
    ∷ []

-- `stopOnce` lets only the first call close the channel.
unfoldable pub stop : Consumer → Consumer
stop c = if c.stop_closed then c else record c { stop_closed = true }
