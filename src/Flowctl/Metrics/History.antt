-- ===== src/Flowctl/Metrics/History.antt =====
-- What the metrics of pkg/flowctl/metrics.go hold after any sequence of calls.
use flowctl_sdk.Base.{ℕ, suc, ◌%◌, ◌^◌, ◌≡◌, List, [], ◌∷◌, String, arith}
use flowctl_sdk.Base.Dict.{IsDict, put-IsDict}
use flowctl_sdk.Flowctl.Metrics.{
  Floats, Metrics, increment_processed_count, increment_error_count, increment_success_count,
  add_counter, add_gauge, record_processing_latency, new_standard_metrics, reset,
}

-- The calls that change the metrics, with their arguments.
pub data Call (F : Type 0) : Type 0 where
  processed failed succeeded resets : Call F
  latency : F → Call F
  counter : String → ℕ → Call F
  gauge : String → F → Call F

module _ (fl : Floats) where
  open fl use {F}

  pub apply : ℕ → Call F → Metrics F → Metrics F
  apply now processed m = increment_processed_count now m
  apply now failed m = increment_error_count now m
  apply now succeeded m = increment_success_count now m
  apply now resets m = reset fl now m
  apply now (latency d) m = record_processing_latency fl now d m
  apply now (counter name v) m = add_counter now name v m
  apply now (gauge name v) m = add_gauge now name v m

  -- The calls, each at its time.
  pub run : List (ℕ × Call F) → Metrics F → Metrics F
  run [] m = m
  run ((now, c) ∷ cs) m = run cs (apply now c m)

  -- The totals since the last reset, without bound.
  pub record Totals : Type 0 where
    pub all_processed : ℕ
    pub all_failed : ℕ
    pub all_succeeded : ℕ

  pub tally_call : Call F → Totals → Totals
  tally_call processed t = record t { all_processed = suc t.all_processed }
  tally_call failed t = record t { all_failed = suc t.all_failed }
  tally_call succeeded t = record t { all_succeeded = suc t.all_succeeded }
  tally_call resets t = record { all_processed = 0; all_failed = 0; all_succeeded = 0 }
  tally_call _ t = t

  pub tally : List (ℕ × Call F) → Totals → Totals
  tally [] t = t
  tally ((now, c) ∷ cs) t = tally cs (tally_call c t)

  -- The counters agree with the totals as int64 values.
  pub record Agrees (m : Metrics F) (t : Totals) : Type 0 where
    pub processed_agrees : m.processed_count ≡ t.all_processed % 2 ^ 64
    pub errors_agree : m.error_count ≡ t.all_failed % 2 ^ 64
    pub successes_agree : m.success_count ≡ t.all_succeeded % 2 ^ 64
    pub counters_one : IsDict m.counters
    pub gauges_one : IsDict m.gauges

  apply-Agrees :
      (now : ℕ) (c : Call F) (m : Metrics F) (t : Totals)
      → Agrees m t
      → Agrees (apply now c m) (tally_call c t)
  unfolding apply tally_call increment_processed_count increment_error_count increment_success_count
      add_counter add_gauge record_processing_latency reset
  apply-Agrees now (counter name v) m t a = record {
    processed_agrees = a.processed_agrees;
    errors_agree = a.errors_agree;
    successes_agree = a.successes_agree;
    counters_one = put-IsDict name v m.counters a.counters_one;
    gauges_one = a.gauges_one;
  }
  apply-Agrees now (gauge name v) m t a = record {
    processed_agrees = a.processed_agrees;
    errors_agree = a.errors_agree;
    successes_agree = a.successes_agree;
    counters_one = a.counters_one;
    gauges_one = put-IsDict name v m.gauges a.gauges_one;
  }
  apply-Agrees now _ m t a = ground arith

  run-Agrees :
      (cs : List (ℕ × Call F)) (m : Metrics F) (t : Totals)
      → Agrees m t
      → Agrees (run cs m) (tally cs t)
  unfolding run tally
  run-Agrees [] m t a = a
  run-Agrees ((now, c) ∷ cs) m t a =
      run-Agrees cs (apply now c m) (tally_call c t) (apply-Agrees now c m t a)

  -- After any calls on new metrics, each of the three counters is the number of its increments since
  -- the last reset, wrapped to int64, and no custom counter or gauge has two entries.
  pub run_counts :
      (start : ℕ) (cs : List (ℕ × Call F))
      → Agrees
          (run cs (new_standard_metrics fl start))
          (tally cs (record { all_processed = 0; all_failed = 0; all_succeeded = 0 }))
  unfolding new_standard_metrics
  run_counts start cs = run-Agrees cs _ _ (omega arith)
