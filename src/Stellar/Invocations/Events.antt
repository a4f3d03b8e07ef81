-- ===== src/Stellar/Invocations/Events.antt =====
-- contract_invocation/contract_invocation_event.go: the event of one invocation, and its methods.
use flowctl_sdk.Base.{ℕ, Bool, List, [], ◌∷◌, String, if◌then◌else◌, ltb, length}
use flowctl_sdk.Stellar.Xdr.{ScVal}
use flowctl_sdk.Stellar.Invocations.Values.{Json, Fields}
use flowctl_sdk.Stellar.Invocations.Calls.{ContractCall}

pub record DiagnosticEvent : Type 0 where
  pub contract_id : String
  pub topics : List ScVal
  pub topics_decoded : List Json
  pub body : ScVal
  pub body_decoded : Json

pub record StateChange : Type 0 where
  pub contract_id : String
  pub key_raw : ScVal
  pub key : String
  pub old_value_raw : ScVal
  pub old_value : Json
  pub new_value_raw : ScVal
  pub new_value : Json
  pub operation : String

-- `timestamp` is the ledger's close time in seconds. The slice of TTL extensions is always nil.
pub record ContractInvocationEvent : Type 0 where
  pub timestamp : ℕ
  pub ledger_sequence : ℕ
  pub transaction_index : ℕ
  pub operation_index : ℕ
  pub transaction_hash : String
  pub contract_id : String
  pub invoking_account : String
  pub function_name : String
  pub arguments_raw : List ScVal
  pub arguments : List String
  pub arguments_decoded : Fields
  pub successful : Bool
  pub diagnostic_events : List DiagnosticEvent
  pub contract_calls : List ContractCall
  pub state_changes : List StateChange

unfoldable pub has_cross_contract_calls : ContractInvocationEvent → Bool
has_cross_contract_calls e = ltb 0 (length e.contract_calls)

unfoldable pub has_state_changes : ContractInvocationEvent → Bool
has_state_changes e = ltb 0 (length e.state_changes)

-- The loop of GetMaxCallDepth.
unfoldable pub max_depth_from : ℕ → List ContractCall → ℕ
max_depth_from m [] = m
max_depth_from m (c ∷ cs) = max_depth_from (if ltb m c.call_depth then c.call_depth else m) cs

unfoldable pub get_max_call_depth : ContractInvocationEvent → ℕ
unfolding max_depth_from
get_max_call_depth e = max_depth_from 0 e.contract_calls
