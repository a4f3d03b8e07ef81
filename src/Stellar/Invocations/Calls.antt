-- ===== src/Stellar/Invocations/Calls.antt =====
-- extractContractCallsFromAuth and processAuthorizationTree of
-- contract_invocation/contract_invocation_processor.go. The slice and the counter that the recursion
-- writes through pointers are a `Trace`.
use flowctl_sdk.Base.{
  ℕ, ◌+◌, Bool, true, not, ◌&&◌, List, [], ◌∷◌, ◌++◌, none, some, String, str_eq, if◌then◌else◌,
}
use flowctl_sdk.Stellar.Panics.{Run, ran, crashed, ◌>>=◌, Checked, good, bad}
use flowctl_sdk.Stellar.Xdr.{
  ScVal, contract_id, AuthorizedFunction, contract_fn, other_fn, Invocation, invocation,
  SubInvocations, leaf, sub, AuthorizationEntry,
}
use flowctl_sdk.Stellar.Invocations.Values.{Json, Library, convert}

pub record ContractCall : Type 0 where
  pub from_contract : String
  pub to_contract : String
  pub function : String
  pub arguments : List Json
  pub call_depth : ℕ
  pub auth_type : String
  pub successful : Bool
  pub execution_order : ℕ

pub record Trace : Type 0 where
  pub calls : List ContractCall
  pub execution_order : ℕ

-- What an invocation invokes: the contract's ID and so on, empty for one that is no contract call.
pub record Callee : Type 0 where
  pub contract_id : String
  pub function_name : String
  pub args : List Json

-- `if from != "" && to != "" && from != to`.
unfoldable pub crosses : String → String → Bool
crosses from to = not (str_eq from "") && (not (str_eq to "") && not (str_eq from to))

unfoldable pub record_call : String → String → Callee → ℕ → Trace → Trace
record_call auth from c depth t =
    if crosses from c.contract_id
    then record {
      calls =
          t.calls
          ++ record {
            from_contract = from;
            to_contract = c.contract_id;
            function = c.function_name;
            arguments = c.args;
            call_depth = depth;
            auth_type = auth;
            successful = true;
            execution_order = t.execution_order;
          }
            ∷ [];
      execution_order = t.execution_order + 1;
    }
    else t

abbrev pub auth_type_of : AuthorizationEntry → String
auth_type_of e = if e.by_address then "contract" else "source_account"

module _ (lib : Library) where
  -- The arguments that can be decoded, in order.
  unfoldable pub decoded_args : List ScVal → Run (List Json)
  decoded_args [] = ran []
  decoded_args (v ∷ vs) = do
    c ← convert lib v
    js ← decoded_args vs
    ran (elim c [ good j ↦ j ∷ js | bad e ↦ js ])

  -- A nil ContractId panics where it is sliced.
  unfoldable pub callee : AuthorizedFunction → Run (Checked Callee)
  unfolding decoded_args
  callee other_fn = ran (good (record { contract_id = ""; function_name = ""; args = [] }))
  callee (contract_fn f) = elim (contract_id f.contract_address) [
    | none ↦ crashed
    | some h ↦ elim (lib.encode_contract h) [
      | bad e ↦ ran (bad e)
      | good id ↦ decoded_args f.args >>= λ js.
          ran (good (record { contract_id = id; function_name = f.function_name; args = js }))
    ]
  ]

  unfoldable mutual
    unfolding record_call callee

    pub process_tree : String → Invocation → String → ℕ → Trace → Run Trace
    process_tree auth (invocation f subs) from depth t = callee f >>= λ r. elim r [
      | bad e ↦ ran t
      | good c ↦ process_subs auth subs c.contract_id (depth + 1) (record_call auth from c depth t)
    ]

    pub process_subs : String → SubInvocations → String → ℕ → Trace → Run Trace
    process_subs auth leaf from depth t = ran t
    process_subs auth (sub i is) from depth t = do
      t' ← process_tree auth i from depth t
      process_subs auth is from depth t'

  unfoldable pub process_entries : List AuthorizationEntry → String → Trace → Run Trace
  unfolding process_tree
  process_entries [] main t = ran t
  process_entries (e ∷ es) main t = do
    t' ← process_tree (auth_type_of e) e.root main 0 t
    process_entries es main t'

  unfoldable pub extract_calls : List AuthorizationEntry → String → Run (List ContractCall)
  unfolding process_entries
  extract_calls es main = do
    t ← process_entries es main (record { calls = []; execution_order = 0 })
    ran t.calls
