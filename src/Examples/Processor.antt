-- ===== src/Examples/Processor.antt =====
-- The theorems on pkg/processor at concrete inputs.
use flowctl_sdk.Base.{ℕ, ◌≡◌, ◌↔◌, List, [], ◌∷◌, Option, none, some, ◌==◌, if◌then◌else◌, length}
use flowctl_sdk.Errors.{plain, sentinel, io_eof, Result, good, bad}
use flowctl_sdk.Protocol.{Event}
use flowctl_sdk.Flowctl.Metrics.{new_standard_metrics}
use flowctl_sdk.Processor.{Processor}
use flowctl_sdk.Processor.Config.{default_config}
use flowctl_sdk.Processor.Handler.{Handler, get_handlers_for_type, new_registry}
use flowctl_sdk.Processor.Handler.Routing.{register_all, routed, handlers_in_order}
use flowctl_sdk.Processor.Stream.{Round, received, process}
use flowctl_sdk.Processor.Stream.Delivery.{Serves, process_ok_iff}
use flowctl_sdk.Processor.Stream.Verdicts.{Tallied, tally}
use flowctl_sdk.Processor.Stream.Counts.{process_counts}
use flowctl_sdk.Examples.{floats, idle_service}

abbrev transfers : Handler
transfers = record { key = 1; input_types = "transfer" ∷ "mint" ∷ []; output_types = "row" ∷ [] }

abbrev mints : Handler
mints = record { key = 2; input_types = "mint" ∷ []; output_types = [] }

handlers_in_order_example :
    get_handlers_for_type "mint" (register_all (transfers ∷ mints ∷ []) new_registry)
    ≡ routed "mint" (transfers ∷ mints ∷ [])
handlers_in_order_example = handlers_in_order "mint" (transfers ∷ mints ∷ [])

unfoldable rows : Processor ℕ
rows = record {
  config = default_config;
  registry = ("transfer", transfers ∷ []) ∷ [];
  service = idle_service;
  metrics = new_standard_metrics floats 0;
}

-- A transfer is forwarded, one with the body 0 is filtered, and one with the body 13 fails.
abbrev handle : Handler → Event → Result (Option Event)
handle h e =
    if e.body == 0
    then good none
    else if e.body == 13
    then bad (plain "password")
    else good (some (record { event_type = "row"; body = e.body }))

abbrev round : Result Event → Round
round r = record {
  now = 1;
  pick = received r;
  handle = handle;
  elapsed = 3;
  context = none;
  send = none;
}

abbrev transfer : ℕ → Round
transfer n = round (good (record { event_type = "transfer"; body = n }))

abbrev whole : List Round
whole = transfer 5 ∷ transfer 0 ∷ transfer 6 ∷ round (bad (sentinel io_eof)) ∷ []

abbrev failing : List Round
failing = transfer 5 ∷ transfer 0 ∷ transfer 13 ∷ []

process_ok_iff_example :
    let t = process floats whole rows in (t.answer ≡ some none) ↔ Serves rows.registry whole t.sent
process_ok_iff_example = process_ok_iff floats whole rows

process_counts_example :
    let t = process floats failing rows in
    Tallied rows t.processor (length t.sent) t.answer (tally rows.registry failing)
process_counts_example = process_counts floats failing rows
