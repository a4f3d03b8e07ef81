-- ===== src/Stellar/Xdr.antt =====
-- The values of the Stellar protocol (go-stellar-sdk's xdr package, which is not part of the
-- repository), as far as the processors read them. A Go union is a tag with one pointer for each tag:
-- `none` is a nil pointer under its tag. Numbers are bit patterns.
use flowctl_sdk.Base.{ℕ, Bool, List, Option, none, String}
use flowctl_sdk.Stellar.Panics.{Checked}

pub record Parts128 : Type 0 where
  pub hi : ℕ
  pub lo : ℕ

pub record Parts256 : Type 0 where
  pub hi_hi : ℕ
  pub hi_lo : ℕ
  pub lo_hi : ℕ
  pub lo_lo : ℕ

-- A hash or a public key of 32 bytes, as a number.
abbrev pub Hash : Type 0
Hash = ℕ

pub data ScAddress : Type 0 where
  account : Option Hash → ScAddress
  contract : Option Hash → ScAddress
  -- Any other tag, with its name.
  unlisted_address : String → ScAddress

mutual
  pub data ScVal : Type 0 where
    bool : Option Bool → ScVal
    void : ScVal
    u32 i32 u64 i64 timepoint duration : Option ℕ → ScVal
    u128 i128 : Option Parts128 → ScVal
    u256 i256 : Option Parts256 → ScVal
    symbol text : Option String → ScVal
    bytes : Option (List ℕ) → ScVal
    address : Option ScAddress → ScVal
    vec : Vec → ScVal
    map : Entries → ScVal
    contract_instance : Bool → ScVal
    ledger_key_contract_instance : ScVal
    ledger_key_nonce : Option ℕ → ScVal
    -- Any other tag, with its name.
    unlisted : String → ScVal

  -- `**ScVec`: a nil pointer, a pointer to a nil pointer, or the items.
  pub data Vec : Type 0 where
    nil_vec absent_vec : Vec
    vec_of : Items → Vec

  pub data Items : Type 0 where
    nil : Items
    cons : ScVal → Items → Items

  -- `**ScMap`, in the same way.
  pub data Entries : Type 0 where
    nil_map absent_map : Entries
    map_of : Pairs → Entries

  pub data Pairs : Type 0 where
    end : Pairs
    entry : ScVal → ScVal → Pairs → Pairs

-- `addr.ContractId`, which is nil under the other tags.
abbrev pub contract_id : ScAddress → Option Hash
contract_id (account a) = none
contract_id (contract c) = c
contract_id (unlisted_address n) = none

-- InvokeContractArgs: of a host function, and of an authorised invocation.
pub record InvokeContractArgs : Type 0 where
  pub contract_address : ScAddress
  pub function_name : String
  pub args : List ScVal

pub data AuthorizedFunction : Type 0 where
  contract_fn : InvokeContractArgs → AuthorizedFunction
  -- A function that creates a contract.
  other_fn : AuthorizedFunction

mutual
  pub data Invocation : Type 0 where
    invocation : AuthorizedFunction → SubInvocations → Invocation

  pub data SubInvocations : Type 0 where
    leaf : SubInvocations
    sub : Invocation → SubInvocations → SubInvocations

-- SorobanAuthorizationEntry: whether its credentials are an address's, and its root.
pub record AuthorizationEntry : Type 0 where
  pub by_address : Bool
  pub root : Invocation

-- An event of a contract: `topics` and `body_data` are `Body.V0.Topics` and `Body.V0.Data`. `V0` is
-- taken to be there: the code reads it without a test.
pub record ContractEvent : Type 0 where
  pub is_contract : Bool
  pub emitter : Option Hash
  pub topics : List ScVal
  pub body_data : ScVal

pub record ContractDataEntry : Type 0 where
  pub owner : ScAddress
  pub key : ScVal
  pub val : ScVal

pub data ChangeType : Type 0 where
  created updated removed unlisted_change : ChangeType

-- ingest.Change: `none` under `pre` and `post` is a nil pointer, and inside an entry that is no
-- contract data, on which MustContractData panics.
pub record Change : Type 0 where
  pub is_contract_data : Bool
  pub change_type : ChangeType
  pub pre : Option (Option ContractDataEntry)
  pub post : Option (Option ContractDataEntry)

pub data HostFunction : Type 0 where
  invoke_contract : InvokeContractArgs → HostFunction
  other_function : HostFunction

-- InvokeHostFunctionOp.
pub record HostFunctionOp : Type 0 where
  pub host_function : HostFunction
  pub auth : List AuthorizationEntry

-- An operation: its source account's address, if it has one of its own, and its body.
pub record Operation : Type 0 where
  pub source : Option String
  pub body : Option HostFunctionOp

-- The result of an operation: no `Tr`, one of another operation, or whether the invocation succeeded.
pub data OperationResult : Type 0 where
  no_result other_result : OperationResult
  invoke_result : Bool → OperationResult

-- ingest.LedgerTransaction: `soroban_events` are those of the Soroban meta of version 3, if it is
-- there; `changes` is what GetOperationChanges answers.
pub record Transaction : Type 0 where
  pub index : ℕ
  pub hash : String
  pub source_account : String
  pub operations : List Operation
  pub results : Option (List OperationResult)
  pub soroban_events : Option (List ContractEvent)
  pub changes : ℕ → Checked (List Change)
