-- ===== src/Stellar/Invocations/Changes.antt =====
-- The diagnostic events and the state changes of
-- contract_invocation/contract_invocation_processor.go.
use flowctl_sdk.Base.{List, [], ◌∷◌, Option, none, some, String, if◌then◌else◌}
use flowctl_sdk.Stellar.Panics.{Run, ran, crashed, ◌>>=◌, Checked, good, bad}
use flowctl_sdk.Stellar.Xdr.{
  ScVal, contract_id, ContractEvent, ContractDataEntry, ChangeType, created, updated, removed,
  unlisted_change, Change,
}
use flowctl_sdk.Stellar.Invocations.Values.{Json, Library, convert, json_of}
use flowctl_sdk.Stellar.Invocations.Events.{DiagnosticEvent, StateChange}

-- What the three cases of the switch set: the operation, the entry, the old and the new value.
pub record Changed : Type 0 where
  pub operation : String
  pub entry : ContractDataEntry
  pub old : ScVal
  pub new : ScVal

-- MustContractData.
abbrev pub must : {A : Type 0} → Option A → Run A
must none = crashed
must (some a) = ran a

-- `var v xdr.ScVal`: the first tag, with a nil pointer.
abbrev pub zero_val : ScVal
zero_val = ScVal.bool none

unfoldable pub changed :
    ChangeType
    → Option (Option ContractDataEntry)
    → Option (Option ContractDataEntry)
    → Run (Option Changed)
changed created pre none = ran none
changed created pre (some q) = do
  d ← must q
  ran (some (record { operation = "create"; entry = d; old = zero_val; new = d.val }))
changed updated none post = ran none
changed updated (some p) none = ran none
changed updated (some p) (some q) = do
  o ← must p
  d ← must q
  ran (some (record { operation = "update"; entry = d; old = o.val; new = d.val }))
changed removed none post = ran none
changed removed (some p) post = do
  d ← must p
  ran (some (record { operation = "delete"; entry = d; old = d.val; new = zero_val }))
changed unlisted_change pre post = ran none

abbrev pub append_some : {A : Type 0} → Option A → List A → List A
append_some none xs = xs
append_some (some x) xs = x ∷ xs

module _ (lib : Library) where
  abbrev pub build_change : Changed → String → Json → Checked Json → Checked Json → StateChange
  build_change c id key o n = record {
    contract_id = id;
    key_raw = c.entry.key;
    key = lib.render key;
    old_value_raw = c.old;
    old_value = json_of o;
    new_value_raw = c.new;
    new_value = json_of n;
    operation = c.operation;
  }

  -- What follows the encoding of the contract's ID.
  unfoldable pub describe_as : Changed → String → Run (Option StateChange)
  describe_as c id = convert lib c.entry.key >>= λ k. elim k [
    | bad e ↦ ran none
    | good key ↦
        convert lib c.old >>= λ o. convert lib c.new >>= λ n. ran (some (build_change c id key o n))
  ]

  -- What follows the switch.
  unfoldable pub describe : Changed → Run (Option StateChange)
  unfolding describe_as
  describe c = elim (contract_id c.entry.owner) [
    | none ↦ crashed
    | some h ↦ elim (lib.encode_contract h) [ bad e ↦ ran none | good id ↦ describe_as c id ]
  ]

  unfoldable pub process_contract_data_change : Change → Run (Option StateChange)
  unfolding changed describe
  process_contract_data_change c =
      changed c.change_type c.pre c.post >>= λ r. elim r [ none ↦ ran none | some d ↦ describe d ]

  -- The loop over the changes of an operation.
  unfoldable pub state_changes_of : List Change → Run (List StateChange)
  unfolding process_contract_data_change
  state_changes_of [] = ran []
  state_changes_of (c ∷ cs) = do
    s ← if c.is_contract_data then process_contract_data_change c else ran none
    ss ← state_changes_of cs
    ran (append_some s ss)

  unfoldable pub extract_state_changes : Checked (List Change) → Run (List StateChange)
  unfolding state_changes_of
  extract_state_changes (bad e) = ran []
  extract_state_changes (good cs) = state_changes_of cs

  unfoldable pub decode_topics : List ScVal → Run (List Json)
  decode_topics [] = ran []
  decode_topics (v ∷ vs) = do c ← convert lib v; js ← decode_topics vs; ran (json_of c ∷ js)

  -- A nil ContractId panics where it is sliced.
  unfoldable pub diagnostic_event : ContractEvent → Run (Option DiagnosticEvent)
  unfolding decode_topics
  diagnostic_event e = elim e.emitter [
    | none ↦ crashed
    | some h ↦ elim (lib.encode_contract h) [
      | bad t ↦ ran none
      | good id ↦ decode_topics e.topics >>= λ js. convert lib e.body_data >>= λ b. ran (
          some (record {
            contract_id = id;
            topics = e.topics;
            topics_decoded = js;
            body = e.body_data;
            body_decoded = json_of b;
          }))
    ]
  ]

  unfoldable pub diagnostic_events_of : List ContractEvent → Run (List DiagnosticEvent)
  unfolding diagnostic_event
  diagnostic_events_of [] = ran []
  diagnostic_events_of (e ∷ es) = do
    d ← diagnostic_event e
    ds ← diagnostic_events_of es
    ran (append_some d ds)

  unfoldable pub extract_diagnostic_events :
      Option (List ContractEvent) → Run (List DiagnosticEvent)
  unfolding diagnostic_events_of
  extract_diagnostic_events none = ran []
  extract_diagnostic_events (some es) = diagnostic_events_of es
