-- ===== src/Examples/Ledgers.antt =====
-- The theorems on the ledgers of pkg/stellar/processors/contract_invocation at concrete inputs.
use flowctl_sdk.Base.{
  ◌%◌, ◌^◌, ◌≡◌, ◌↔◌, ◌⊎◌, refl, true, false, List, [], ◌∷◌, none, some, String, map, length,
}
use flowctl_sdk.Stellar.Panics.{ran, crashed, Checked, good}
use flowctl_sdk.Stellar.Xdr.{
  ScVal, ScAddress, ContractEvent, ContractDataEntry, created, updated, removed, Change,
  invoke_contract, Operation, invoke_result, Transaction,
}
use flowctl_sdk.Stellar.Invocations.Values.{Json, null, convert, json_of}
use flowctl_sdk.Stellar.Invocations.Calls.{crosses, extract_calls}
use flowctl_sdk.Stellar.Invocations.Changes.{
  process_contract_data_change, extract_state_changes, extract_diagnostic_events,
}
use flowctl_sdk.Stellar.Invocations.ChangeValues.{Names, Shows, state_change_values}
use flowctl_sdk.Stellar.Invocations.Diagnostics.{
  or_none, any_lacks, shown, shown_event, diagnostic_events_panic,
}
use flowctl_sdk.Stellar.Invocations.Events.{DiagnosticEvent, StateChange, ContractInvocationEvent}
use flowctl_sdk.Stellar.Invocations.Ledger.{events_from_ledger, process_contract_invocation}
use flowctl_sdk.Stellar.Invocations.Arguments.{extract_arguments}
use flowctl_sdk.Stellar.Invocations.LedgerEvents.{place_of, places, events_from_ledger-places}
use flowctl_sdk.Stellar.Invocations.Proto.{proto_event, convert_to_proto}
use flowctl_sdk.Stellar.Invocations.ProtoBatches.{present_events, convert_to_proto_batch}
use flowctl_sdk.Examples.Invocations.{encodes, lib, args_of, entries, event}

abbrev changed_entry : ContractDataEntry
changed_entry = record {
  owner = ScAddress.contract (some 2);
  key = ScVal.symbol (some "balance");
  val = ScVal.u32 (some 9);
}

abbrev creation : Change
creation = record {
  is_contract_data = true;
  change_type = created;
  pre = none;
  post = some (some changed_entry);
}

processed : (s : StateChange) × (process_contract_data_change lib creation ≡ ran (some s))
unfolding process_contract_data_change convert json_of
processed = (_, refl)

state_change_values_example :
    ((created ≡ created)
      × (processed.0.operation ≡ "create")
      × (d : ContractDataEntry) × (some (some changed_entry) ≡ some (some d))
      × Names lib d processed.0
      × (processed.0.old_value ≡ null)
      × Shows lib d.val processed.0.new_value)
    ⊎ ((created ≡ updated)
        × (processed.0.operation ≡ "update")
        × (o d : ContractDataEntry) × (none ≡ some (some o))
        × (some (some changed_entry) ≡ some (some d))
        × Names lib d processed.0
        × Shows lib o.val processed.0.old_value
        × Shows lib d.val processed.0.new_value)
    ⊎ ((created ≡ removed)
        × (processed.0.operation ≡ "delete")
        × (d : ContractDataEntry) × (none ≡ some (some d))
        × Names lib d processed.0
        × Shows lib d.val processed.0.old_value
        × (processed.0.new_value ≡ null))
state_change_values_example = state_change_values lib creation processed.0 processed.1

-- A system event: it has no contract's ID.
abbrev system_event : ContractEvent
system_event = record { is_contract = false; emitter = none; topics = []; body_data = ScVal.void }

diagnostic_events_panic_example :
    ((extract_diagnostic_events lib (some (system_event ∷ [])) ≡ crashed)
      ↔ (any_lacks (or_none (some (system_event ∷ []))) ≡ true))
    × ((ds : List DiagnosticEvent)
        → extract_diagnostic_events lib (some (system_event ∷ [])) ≡ ran ds
        → map shown ds ≡ map (shown_event lib encodes) (or_none (some (system_event ∷ []))))
diagnostic_events_panic_example = diagnostic_events_panic lib encodes (some (system_event ∷ []))

abbrev operation : Operation
operation = record {
  source = none;
  body = some (record { host_function = invoke_contract (args_of 1); auth = entries });
}

-- An operation of another kind, and one that invokes a contract.
abbrev transaction : Transaction
transaction = record {
  index = 3;
  hash = "abc";
  source_account = "GA";
  operations = record { source = none; body = none } ∷ operation ∷ [];
  results = some (invoke_result false ∷ invoke_result true ∷ []);
  soroban_events = none;
  changes = λ i. good (creation ∷ []);
}

abbrev marshal : Json → Checked String
marshal j = good "json"

ledger_events :
    (es : List ContractInvocationEvent) × (events_from_ledger lib
        (λ bs. "bytes")
        marshal
        100
        7
        (good (good transaction ∷ []))
      ≡ ran (good es))
unfolding events_from_ledger process_contract_invocation convert json_of crosses extract_calls
    extract_arguments extract_state_changes extract_diagnostic_events
ledger_events = (_, refl)

events_from_ledger-places_example :
    (txs : List Transaction) × (good transaction ∷ [] ≡ map good txs)
    × (map place_of ledger_events.0 ≡ places txs)
events_from_ledger-places_example =
    events_from_ledger-places lib (λ bs. "bytes") marshal encodes 100 7 (good transaction ∷ [])
      ledger_events.0 ledger_events.1

convert_to_proto_batch_example :
    (convert_to_proto marshal (some event ∷ none ∷ [])
      ≡ ran (record {
        invocations = map (proto_event marshal) (present_events (some event ∷ none ∷ []));
        ledger_sequence = 7;
        invocation_count = length (present_events (some event ∷ none ∷ [])) % 2 ^ 32;
      }))
    × (convert_to_proto marshal (none ∷ some event ∷ none ∷ []) ≡ crashed)
convert_to_proto_batch_example = convert_to_proto_batch marshal event (none ∷ [])
