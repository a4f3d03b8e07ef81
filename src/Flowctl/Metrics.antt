-- ===== src/Flowctl/Metrics.antt =====
-- pkg/flowctl/metrics.go. Each method holds the lock from its first line to its return, so it is one
-- step on the record. Floats are a parameter; the clock is an argument, in seconds.
pub mod Snapshot
pub mod History
use flowctl_sdk.Base.{ℕ, List, [], ◌∷◌, String, ◌<>◌, inc64, positive64, if◌then◌else◌, arith}
use flowctl_sdk.Base.Dict.{Dict, get, put}

-- The float64 operations that the metrics use.
pub record Floats : Type 1 where
  pub F : Type 0
  pub zero_f : F
  pub from_ms : ℕ → F
  pub half_sum : F → F → F  -- (a + b) / 2
  pub seconds_since : ℕ → ℕ → F

pub data MetricValue (F : Type 0) : Type 0 where
  int64 : ℕ → MetricValue F
  float64 : F → MetricValue F
  opaque : String → MetricValue F

pub record Metrics (F : Type 0) : Type 0 where
  pub processed_count : ℕ  -- int64
  pub error_count : ℕ  -- int64
  pub success_count : ℕ  -- int64
  pub processing_latency : F
  pub last_update_time : ℕ
  pub counters : Dict ℕ
  pub gauges : Dict F

module _ {F : Type 0} where
  unfoldable pub increment_processed_count : ℕ → Metrics F → Metrics F
  increment_processed_count now m = record m {
    processed_count = inc64 m.processed_count;
    last_update_time = now;
  }

  unfoldable pub increment_error_count : ℕ → Metrics F → Metrics F
  increment_error_count now m = record m {
    error_count = inc64 m.error_count;
    last_update_time = now;
  }

  unfoldable pub increment_success_count : ℕ → Metrics F → Metrics F
  increment_success_count now m = record m {
    success_count = inc64 m.success_count;
    last_update_time = now;
  }

  unfoldable pub add_counter : ℕ → String → ℕ → Metrics F → Metrics F
  add_counter now name value m = record m {
    counters = put name value m.counters;
    last_update_time = now;
  }

  unfoldable pub add_gauge : ℕ → String → F → Metrics F → Metrics F
  add_gauge now name value m = record m { gauges = put name value m.gauges; last_update_time = now }

  -- `for name, value := range custom { metrics[prefix+name] = value }`.
  unfoldable pub add_custom :
      {V : Type 0}
      → String
      → (V → MetricValue F)
      → Dict (MetricValue F)
      → Dict V
      → Dict (MetricValue F)
  add_custom prefix wrap out [] = out
  add_custom prefix wrap out ((name, value) ∷ rest) =
      add_custom prefix wrap (put (prefix <> name) (wrap value) out) rest

module _ (fl : Floats) where
  open fl use {F, zero_f, half_sum, seconds_since}

  unfoldable pub new_standard_metrics : ℕ → Metrics F
  new_standard_metrics now = record {
    processed_count = 0;
    error_count = 0;
    success_count = 0;
    processing_latency = zero_f;
    last_update_time = now;
    counters = [];
    gauges = [];
  }

  unfoldable pub record_processing_latency : ℕ → F → Metrics F → Metrics F
  record_processing_latency now duration m = record m {
    processing_latency =
        if positive64 m.processed_count then half_sum m.processing_latency duration else duration;
    last_update_time = now;
  }

  unfoldable pub standard_metrics : ℕ → Metrics F → Dict (MetricValue F)
  standard_metrics now m =
      ("processed_count", int64 m.processed_count)
      ∷ ("error_count", int64 m.error_count)
      ∷ ("success_count", int64 m.success_count)
      ∷ ("processing_latency", float64 m.processing_latency)
      ∷ ("last_update_time", int64 m.last_update_time)
      ∷ ("uptime_seconds", float64 (seconds_since m.last_update_time now))
      ∷ []

  unfoldable pub get_metrics : ℕ → Metrics F → Dict (MetricValue F)
  get_metrics now m =
      add_custom "gauge_" float64 (add_custom "counter_" int64 (standard_metrics now m) m.counters)
        m.gauges

  unfoldable pub reset : ℕ → Metrics F → Metrics F
  reset now m = record m {
    processed_count = 0;
    error_count = 0;
    success_count = 0;
    processing_latency = zero_f;
    last_update_time = now;
    counters = [];
    gauges = [];
  }
