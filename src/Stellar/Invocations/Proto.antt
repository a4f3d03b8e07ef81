-- ===== src/Stellar/Invocations/Proto.antt =====
-- contract_invocation/convert.go. A slice of pointers to events is a list of options; the messages of
-- the generated protocol are records with its field names.
use flowctl_sdk.Base.{
  ℕ, ◌%◌, ◌^◌, Bool, List, [], ◌∷◌, Option, none, some, String, ◌<>◌, map, length,
}
use flowctl_sdk.Stellar.Panics.{Run, ran, crashed, Checked, good, bad}
use flowctl_sdk.Stellar.Invocations.Values.{Json, null}
use flowctl_sdk.Stellar.Invocations.Calls.{ContractCall}
use flowctl_sdk.Stellar.Invocations.Changes.{append_some}
use flowctl_sdk.Stellar.Invocations.Events.{DiagnosticEvent, StateChange, ContractInvocationEvent}

pub record ProtoDiagnostic : Type 0 where
  pub contract_id : String
  pub topics : List String
  pub body : String

pub record ProtoCall : Type 0 where
  pub from_contract : String
  pub to_contract : String
  pub function : String
  pub arguments : List String
  pub call_depth : ℕ
  pub auth_type : String
  pub successful : Bool
  pub execution_order : ℕ

pub record ProtoChange : Type 0 where
  pub contract_id : String
  pub key : String
  pub old_value : String
  pub new_value : String
  pub operation : String

pub record ProtoEvent : Type 0 where
  pub timestamp : ℕ
  pub ledger_sequence : ℕ
  pub transaction_index : ℕ
  pub operation_index : ℕ
  pub transaction_hash : String
  pub contract_id : String
  pub invoking_account : String
  pub function_name : String
  pub arguments : List String
  pub successful : Bool
  pub diagnostic_events : List ProtoDiagnostic
  pub contract_calls : List ProtoCall
  pub state_changes : List ProtoChange

pub record ProtoBatch : Type 0 where
  pub invocations : List ProtoEvent
  pub ledger_sequence : ℕ
  pub invocation_count : ℕ

unfoldable pub marshalled : Checked String → String
marshalled (good s) = s
marshalled (bad e) = "error: " <> e

-- `marshal` is json.Marshal.
module _ (marshal : Json → Checked String) where
  unfoldable pub json_encode : Json → String
  unfolding marshalled
  json_encode null = ""
  json_encode j = marshalled (marshal j)

  unfoldable pub json_encode_slice : List Json → List String
  json_encode_slice vs = map json_encode vs

  unfoldable pub proto_diagnostic : DiagnosticEvent → ProtoDiagnostic
  proto_diagnostic d = record {
    contract_id = d.contract_id;
    topics = json_encode_slice d.topics_decoded;
    body = json_encode d.body_decoded;
  }

  -- An int32 is its pattern.
  unfoldable pub proto_call : ContractCall → ProtoCall
  proto_call c = record {
    from_contract = c.from_contract;
    to_contract = c.to_contract;
    function = c.function;
    arguments = json_encode_slice c.arguments;
    call_depth = c.call_depth % 2 ^ 32;
    auth_type = c.auth_type;
    successful = c.successful;
    execution_order = c.execution_order % 2 ^ 32;
  }

  unfoldable pub proto_change : StateChange → ProtoChange
  proto_change s = record {
    contract_id = s.contract_id;
    key = s.key;
    old_value = json_encode s.old_value;
    new_value = json_encode s.new_value;
    operation = s.operation;
  }

  unfoldable pub proto_event : ContractInvocationEvent → ProtoEvent
  unfolding proto_diagnostic proto_call proto_change
  proto_event e = record {
    timestamp = e.timestamp;
    ledger_sequence = e.ledger_sequence;
    transaction_index = e.transaction_index;
    operation_index = e.operation_index;
    transaction_hash = e.transaction_hash;
    contract_id = e.contract_id;
    invoking_account = e.invoking_account;
    function_name = e.function_name;
    arguments = e.arguments;
    successful = e.successful;
    diagnostic_events = map proto_diagnostic e.diagnostic_events;
    contract_calls = map proto_call e.contract_calls;
    state_changes = map proto_change e.state_changes;
  }

  unfoldable pub convert_event_to_proto : Option ContractInvocationEvent → Option ProtoEvent
  unfolding proto_event
  convert_event_to_proto none = none
  convert_event_to_proto (some e) = some (proto_event e)

  -- The loop of ConvertToProto.
  unfoldable pub proto_events : List (Option ContractInvocationEvent) → List ProtoEvent
  unfolding convert_event_to_proto
  proto_events [] = []
  proto_events (p ∷ ps) = append_some (convert_event_to_proto p) (proto_events ps)

  -- `events[0].LedgerSequence` panics on a nil pointer.
  unfoldable pub convert_to_proto : List (Option ContractInvocationEvent) → Run ProtoBatch
  unfolding proto_events
  convert_to_proto [] = ran (record { invocations = []; ledger_sequence = 0; invocation_count = 0 })
  convert_to_proto (none ∷ ps) = crashed
  convert_to_proto (some e ∷ ps) = ran (record {
    invocations = proto_events (some e ∷ ps);
    ledger_sequence = e.ledger_sequence;
    invocation_count = length (proto_events (some e ∷ ps)) % 2 ^ 32;
  })
