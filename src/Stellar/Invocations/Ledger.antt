-- ===== src/Stellar/Invocations/Ledger.antt =====
-- EventsFromLedger and processContractInvocation of
-- contract_invocation/contract_invocation_processor.go. A ledger is what its reader returns, one
-- transaction or error after another, until the end of the file.
-- extractContractCallsFromDiagnosticEvents writes nothing into the event, and extractTtlExtensions
-- finds nothing: neither has a counterpart here.
use flowctl_sdk.Base.{
  ℕ, zero, suc, ◌+◌, ◌%◌, ◌^◌, Bool, false, List, [], ◌∷◌, ◌++◌, Option, none, some, String, ◌<>◌,
}
use flowctl_sdk.Stellar.Panics.{Run, ran, crashed, ◌>>=◌, Checked, good, bad}
use flowctl_sdk.Stellar.Xdr.{
  contract_id, HostFunction, invoke_contract, other_function, HostFunctionOp, Operation,
  OperationResult, no_result, other_result, invoke_result, Transaction,
}
use flowctl_sdk.Stellar.Invocations.Values.{Json, no_field, Library}
use flowctl_sdk.Stellar.Invocations.Arguments.{Arguments, extract_function_name, extract_arguments}
use flowctl_sdk.Stellar.Invocations.Calls.{ContractCall, extract_calls}
use flowctl_sdk.Stellar.Invocations.Changes.{
  append_some, extract_state_changes, extract_diagnostic_events,
}
use flowctl_sdk.Stellar.Invocations.Events.{DiagnosticEvent, StateChange, ContractInvocationEvent}

-- `results[i]`, behind the test of its length.
abbrev pub result_at : List OperationResult → ℕ → Option OperationResult
result_at [] i = none
result_at (r ∷ rs) zero = some r
result_at (r ∷ rs) (suc i) = result_at rs i

unfoldable pub is_success : Option OperationResult → Bool
is_success (some (invoke_result b)) = b
is_success (some other_result) = false
is_success (some no_result) = false
is_success none = false

unfoldable pub was_successful : Option (List OperationResult) → ℕ → Bool
unfolding is_success
was_successful none i = false
was_successful (some rs) i = is_success (result_at rs i)

abbrev pub good_one : {A : Type 0} → Checked A → Option A
good_one (good a) = some a
good_one (bad e) = none

abbrev pub account_of : Option String → String → String
account_of none s = s
account_of (some a) s = a

module _ (lib : Library) (lib_text : List ℕ → String) (marshal : Json → Checked String) where
  -- The contract's ID: "" for a host function that is no invocation.
  unfoldable pub contract_of : HostFunction → Run (Checked String)
  contract_of other_function = ran (good "")
  contract_of (invoke_contract c) = elim (contract_id c.contract_address) [
    | none ↦ crashed
    | some h ↦ elim (lib.encode_contract h) [
      | bad e ↦ ran (bad ("error encoding contract ID: " <> e))
      | good id ↦ ran (good id)
    ]
  ]

  unfoldable pub name_of : HostFunction → String
  name_of other_function = ""
  name_of (invoke_contract c) = extract_function_name lib_text c

  -- An error of extractArguments is logged, and what it has built is kept.
  unfoldable pub arguments_of : HostFunction → Run Arguments
  arguments_of other_function =
      ran (record { raw = []; json = []; decoded = no_field; error = none })
  arguments_of (invoke_contract c) = extract_arguments lib marshal c.args

  -- The event, of what the extractors return.
  unfoldable pub build_event :
      ℕ
      → ℕ
      → Transaction
      → ℕ
      → Option String
      → HostFunctionOp
      → String
      → Arguments
      → List DiagnosticEvent
      → List ContractCall
      → List StateChange
      → ContractInvocationEvent
  unfolding name_of was_successful
  build_event close_time sequence tx i source op id a ds cs ss = record {
    timestamp = close_time;
    ledger_sequence = sequence;
    transaction_index = tx.index;
    operation_index = i % 2 ^ 32;
    transaction_hash = tx.hash;
    contract_id = id;
    invoking_account = account_of source tx.source_account;
    function_name = name_of op.host_function;
    arguments_raw = a.raw;
    arguments = a.json;
    arguments_decoded = a.decoded;
    successful = was_successful tx.results i;
    diagnostic_events = ds;
    contract_calls = cs;
    state_changes = ss;
  }

  unfoldable pub process_contract_invocation :
      ℕ
      → ℕ
      → Transaction
      → ℕ
      → Option String
      → HostFunctionOp
      → Run (Checked ContractInvocationEvent)
  unfolding contract_of arguments_of build_event
  process_contract_invocation close_time sequence tx i source op =
      contract_of op.host_function >>= λ r. elim r [
        | bad e ↦ ran (bad e)
        | good id ↦ arguments_of op.host_function >>= λ a.
            extract_diagnostic_events lib tx.soroban_events >>= λ ds.
            extract_calls lib op.auth id >>= λ cs.
            extract_state_changes lib (tx.changes (i % 2 ^ 32)) >>= λ ss.
            ran (good (build_event close_time sequence tx i source op id a ds cs ss))
      ]

  -- The loop over the operations of a transaction, from operation `i`.
  unfoldable pub events_of_operations :
      ℕ → ℕ → Transaction → ℕ → List Operation → Run (List ContractInvocationEvent)
  events_of_operations close_time sequence tx i [] = ran []
  events_of_operations close_time sequence tx i (op ∷ ops) =
      let rest = events_of_operations close_time sequence tx (i + 1) ops in
      elim op.body [
        | none ↦ rest
        | some h ↦ process_contract_invocation close_time sequence tx i op.source h >>= λ r.
            rest >>= λ es. ran (append_some (good_one r) es)
      ]

  -- The loop over the reader's answers, with the events that were found.
  unfoldable pub events_of_reads :
      ℕ
      → ℕ
      → List ContractInvocationEvent
      → List (Checked Transaction)
      → Run (Checked (List ContractInvocationEvent))
  unfolding events_of_operations
  events_of_reads close_time sequence found [] = ran (good found)
  events_of_reads close_time sequence found (bad e ∷ rs) =
      ran (bad ("error reading transaction: " <> e))
  events_of_reads close_time sequence found (good tx ∷ rs) =
      events_of_operations close_time sequence tx 0 tx.operations >>= λ es.
      events_of_reads close_time sequence (found ++ es) rs

  -- `reader` is what the making of the reader returns.
  unfoldable pub events_from_ledger :
      ℕ → ℕ → Checked (List (Checked Transaction)) → Run (Checked (List ContractInvocationEvent))
  unfolding events_of_reads
  events_from_ledger close_time sequence (bad e) =
      ran (bad ("error creating transaction reader: " <> e))
  events_from_ledger close_time sequence (good rs) = events_of_reads close_time sequence [] rs
