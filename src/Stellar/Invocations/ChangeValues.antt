-- ===== src/Stellar/Invocations/ChangeValues.antt =====
-- What a state change of contract_invocation/contract_invocation_processor.go says.
use flowctl_sdk.Base.{
  ◌≡◌, refl, sym, subst, ◌∙◌, ◌⊎◌, inl, inr, Option, none, some, String, arith, Option-cases,
}
use flowctl_sdk.Stellar.Panics.{
  Run, ran, crashed, ◌>>=◌, Checked, good, bad, Run-cases, Checked-cases, crashed_not_ran,
}
use flowctl_sdk.Stellar.Xdr.{
  Hash, ScVal, contract_id, ContractDataEntry, ChangeType, created, updated, removed,
  unlisted_change, Change,
}
use flowctl_sdk.Stellar.Invocations.Values.{Json, null, Library, convert, json_of}
use flowctl_sdk.Stellar.Invocations.Changes.{
  Changed, build_change, describe_as, changed, describe, zero_val, process_contract_data_change,
}
use flowctl_sdk.Stellar.Invocations.Events.{StateChange}

none_not_some : {A : Type 0} {a : A} → ◌≡◌ {A = Run (Option A)} (ran none) (ran (some a)) → ⊥
none_not_some h = ground arith

-- What each kind of change makes of the entries.
abbrev IsChange :
    ChangeType
    → Option (Option ContractDataEntry)
    → Option (Option ContractDataEntry)
    → Changed
    → Type 0
IsChange k pre post d =
    ((k ≡ created)
      × (d.operation ≡ "create")
      × (post ≡ some (some d.entry))
      × (d.old ≡ zero_val)
      × (d.new ≡ d.entry.val))
    ⊎ ((k ≡ updated)
        × (d.operation ≡ "update")
        × (o : ContractDataEntry) × (pre ≡ some (some o))
        × (post ≡ some (some d.entry))
        × (d.old ≡ o.val)
        × (d.new ≡ d.entry.val))
    ⊎ ((k ≡ removed)
        × (d.operation ≡ "delete")
        × (pre ≡ some (some d.entry))
        × (d.old ≡ d.entry.val)
        × (d.new ≡ zero_val))

changed-IsChange :
    (k : ChangeType) (pre post : Option (Option ContractDataEntry)) (d : Changed)
    → changed k pre post ≡ ran (some d)
    → IsChange k pre post d
unfolding changed
changed-IsChange created pre (some (some q)) d h = inl (refl, cc, ground arith, cc, ground arith)
changed-IsChange created pre (some none) d h = absurd (crashed_not_ran h)
changed-IsChange created pre none d h = absurd (none_not_some h)
changed-IsChange updated none post d h = absurd (none_not_some h)
changed-IsChange updated (some p) none d h = absurd (none_not_some h)
changed-IsChange updated (some none) (some q) d h = absurd (crashed_not_ran h)
changed-IsChange updated (some (some p)) (some none) d h = absurd (crashed_not_ran h)
changed-IsChange updated (some (some p)) (some (some q)) d h =
    inr (inl (refl, cc, p, refl, ground arith, cc, ground arith))
changed-IsChange removed none post d h = absurd (none_not_some h)
changed-IsChange removed (some none) post d h = absurd (crashed_not_ran h)
changed-IsChange removed (some (some p)) post d h =
    inr (inr (refl, cc, ground arith, ground arith, cc))
changed-IsChange unlisted_change pre post d h = absurd (none_not_some h)

module _ (lib : Library) where
  -- The change names the entry's contract and key.
  pub record Names (d : ContractDataEntry) (s : StateChange) : Type 0 where
    pub hash : Hash
    pub owner : contract_id d.owner ≡ some hash
    pub encoded : lib.encode_contract hash ≡ good s.contract_id
    pub key_json : Json
    pub converted : convert lib d.key ≡ ran (good key_json)
    pub key_text : s.key ≡ lib.render key_json

  -- A value of the change is what converting the entry's value gives.
  abbrev pub Shows : ScVal → Json → Type 0
  Shows v j = (r : Checked Json) × (convert lib v ≡ ran r) × (j ≡ json_of r)

  described :
      (c : Changed) (id : String) (key : Json) (m n : Run (Checked Json)) (s : StateChange)
      → (m >>= λ o. n >>= λ r. ran (some (build_change lib c id key o r))) ≡ ran (some s)
      → (o r : Checked Json) × (m ≡ ran o) × (n ≡ ran r) × (s ≡ build_change lib c id key o r)
  described c id key (ran o) (ran r) s h = (o, r, refl, refl, cc)
  described c id key (ran o) crashed s h = absurd (ground arith)
  described c id key crashed n s h = absurd (ground arith)

  abbrev Says : Changed → StateChange → Type 0
  Says c s =
      Names c.entry s
      × (s.operation ≡ c.operation)
      × Shows c.old s.old_value
      × Shows c.new s.new_value

  describe_as_lem :
      (c : Changed) (h : Hash) (id : String) (s : StateChange)
      → contract_id c.entry.owner ≡ some h
      → lib.encode_contract h ≡ good id
      → describe_as lib c id ≡ ran (some s)
      → Says c s
  unfolding describe_as
  describe_as_lem c h id s p q d = elim (Run-cases (convert lib c.entry.key)) [
    | inr e ↦ absurd (crashed_not_ran (rw e at d))
    | inl (bad x, e) ↦ absurd (none_not_some (rw e at d))
    | inl (good key, e) ↦
        let (o, r, eo, er, es) =
          described c id key (convert lib c.old) (convert lib c.new) s (rw e at d) in
        subst (λ s. Says c s) (sym es)
          (
            record {
              hash = h;
              owner = p;
              encoded = q;
              key_json = key;
              converted = e;
              key_text = refl;
            },
            refl,
            (o, eo, refl),
            (r, er, refl),
          )
  ]

  describe_lem : (c : Changed) (s : StateChange) → describe lib c ≡ ran (some s) → Says c s
  unfolding describe
  describe_lem c s d = elim (Option-cases (contract_id c.entry.owner)) [
    | inl e ↦ absurd (crashed_not_ran (rw (e, describe) at d))
    | inr (h, e) ↦ elim (Checked-cases (lib.encode_contract h)) [
      | inl (id, q) ↦ describe_as_lem c h id s e q (rw (e, q, describe) at d)
      | inr (x, q) ↦ absurd (none_not_some (rw (e, q, describe) at d))
    ]
  ]

  zero-Shows : (j : Json) → Shows zero_val j → j ≡ null
  unfolding convert json_of
  zero-Shows j (r, e, q) = q ∙ ground arith

  Shows-eq : {v w : ScVal} {j : Json} → v ≡ w → Shows v j → Shows w j
  Shows-eq {j = j} e h = subst (λ v. Shows v j) e h

  changed_of :
      (c : Change) (s : StateChange)
      → process_contract_data_change lib c ≡ ran (some s)
      → (d : Changed) × IsChange c.change_type c.pre c.post d × Says d s
  unfolding process_contract_data_change
  changed_of c s h = elim (Run-cases (changed c.change_type c.pre c.post)) [
    | inr e ↦ absurd (crashed_not_ran (rw (e, process_contract_data_change) at h))
    | inl (none, e) ↦ absurd (none_not_some (rw (e, process_contract_data_change) at h))
    | inl (some d, e) ↦ (
      d,
      changed-IsChange c.change_type c.pre c.post d e,
      describe_lem d s (rw (e, process_contract_data_change) at h),
    )
  ]

  -- A state change that is reported is of one of three kinds. A creation shows the new entry's value
  -- and null for the old one, an update both entries' values, and a deletion the old entry's value
  -- and null for the new one; each names the entry's contract and key.
  pub state_change_values :
      (c : Change) (s : StateChange)
      → process_contract_data_change lib c ≡ ran (some s)
      → ((c.change_type ≡ created)
          × (s.operation ≡ "create")
          × (d : ContractDataEntry) × (c.post ≡ some (some d))
          × Names d s
          × (s.old_value ≡ null)
          × Shows d.val s.new_value)
        ⊎ ((c.change_type ≡ updated)
            × (s.operation ≡ "update")
            × (o d : ContractDataEntry) × (c.pre ≡ some (some o))
            × (c.post ≡ some (some d))
            × Names d s
            × Shows o.val s.old_value
            × Shows d.val s.new_value)
        ⊎ ((c.change_type ≡ removed)
            × (s.operation ≡ "delete")
            × (d : ContractDataEntry) × (c.pre ≡ some (some d))
            × Names d s
            × Shows d.val s.old_value
            × (s.new_value ≡ null))
  state_change_values c s h =
      let (d, k, says) = changed_of c s h in
      let (names, op, old, new) = says in
      elim k [
        | inl (t, o, q, eo, en) ↦ inl (
          t,
          op ∙ o,
          d.entry,
          q,
          names,
          zero-Shows s.old_value (Shows-eq eo old),
          Shows-eq en new,
        )
        | inr (inl (t, o, p, q, q', eo, en)) ↦
            inr (inl (t, op ∙ o, p, d.entry, q, q', names, Shows-eq eo old, Shows-eq en new))
        | inr (inr (t, o, q, eo, en)) ↦ inr (
            inr (
              t,
              op ∙ o,
              d.entry,
              q,
              names,
              Shows-eq eo old,
              zero-Shows s.new_value (Shows-eq en new),
            ))
      ]
