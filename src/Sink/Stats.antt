-- ===== src/Sink/Stats.antt =====
-- GetStats of pkg/consumer/sinks/postgresql/postgresql.go.
use flowctl_sdk.Base.{ℕ, List, [], ◌∷◌, String}
use flowctl_sdk.Base.Dict.{Dict, put}
use flowctl_sdk.Errors.{Result, good, bad}

-- The loop of GetStats over the rows of the second query; `bad` is an error of Scan.
unfoldable pub scan_rows : Dict ℕ → List (Result (String × ℕ)) → Result (Dict ℕ)
scan_rows m [] = good m
scan_rows m (bad x ∷ rs) = bad x
scan_rows m (good (id, count) ∷ rs) = scan_rows (put id count m) rs

pub record Stats : Type 0 where
  pub total_events : ℕ
  pub top_contracts : Dict ℕ

-- GetStats, of what the two queries answer.
unfoldable pub get_stats : Result ℕ → Result (List (Result (String × ℕ))) → Result Stats
unfolding scan_rows
get_stats (bad x) rows = bad x
get_stats (good n) (bad x) = bad x
get_stats (good n) (good rs) = elim (scan_rows [] rs) [
  | bad x ↦ bad x
  | good m ↦ good (record { total_events = n; top_contracts = m })
]
