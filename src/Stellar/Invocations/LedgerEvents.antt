-- ===== src/Stellar/Invocations/LedgerEvents.antt =====
-- Which events contract_invocation/contract_invocation_processor.go makes of a ledger.
use mathlib.Core.List.{map-append}
use flowctl_sdk.Base.{
  ℕ, ◌+◌, ◌%◌, ◌^◌, ◌≡◌, refl, sym, ap, ◌∙◌, Bool, List, [], ◌∷◌, ◌++◌, map, append_assoc,
  append-nil, none, some, String, arith, Option-cases, inl, inr,
}
use flowctl_sdk.Stellar.Panics.{
  Run, ran, crashed, ◌>>=◌, Checked, good, bad, >>=-eq-ran, Run-cases, crashed_not_ran, ran-eq,
}
use flowctl_sdk.Stellar.Xdr.{
  Hash, HostFunction, invoke_contract, other_function, contract_id, HostFunctionOp, Operation,
  Transaction,
}
use flowctl_sdk.Stellar.Invocations.Results.{succeeds, succeeds-was_successful}
use flowctl_sdk.Stellar.Invocations.Values.{Json, Library}
use flowctl_sdk.Stellar.Invocations.Events.{ContractInvocationEvent, DiagnosticEvent, StateChange}
use flowctl_sdk.Stellar.Invocations.Ledger.{
  account_of, good_one, contract_of, arguments_of, build_event, process_contract_invocation,
  events_of_operations, events_of_reads, events_from_ledger,
}
use flowctl_sdk.Stellar.Invocations.Changes.{
  append_some, extract_state_changes, extract_diagnostic_events,
}
use flowctl_sdk.Stellar.Invocations.Calls.{ContractCall, extract_calls}
use flowctl_sdk.Stellar.Invocations.Arguments.{Arguments}

good-eq : {A : Type 0} {a b : A} → good a ≡ good b → a ≡ b
good-eq h = cc

bad_not_good : {A : Type 0} {e : String} {a : A} → bad e ≡ good a → ⊥
bad_not_good h = ground arith

-- Where an event comes from, and whether the invocation succeeded.
pub record Place : Type 0 where
  pub transaction_index : ℕ
  pub operation_index : ℕ
  pub transaction_hash : String
  pub invoking_account : String
  pub successful : Bool

abbrev pub place_of : ContractInvocationEvent → Place
place_of e = record {
  transaction_index = e.transaction_index;
  operation_index = e.operation_index;
  transaction_hash = e.transaction_hash;
  invoking_account = e.invoking_account;
  successful = e.successful;
}

abbrev pub place : Transaction → ℕ → Operation → Place
place tx i op = record {
  transaction_index = tx.index;
  operation_index = i % 2 ^ 32;
  transaction_hash = tx.hash;
  invoking_account = account_of op.source tx.source_account;
  successful = succeeds tx.results i;
}

-- The operations that invoke host functions, from operation `i`.
pub places_from : Transaction → ℕ → List Operation → List Place
places_from tx i [] = []
places_from tx i (op ∷ ops) =
    let rest = places_from tx (i + 1) ops in
    elim op.body [ none ↦ rest | some h ↦ place tx i op ∷ rest ]

pub places : List Transaction → List Place
places [] = []
places (tx ∷ txs) = places_from tx 0 tx.operations ++ places txs

module _ (lib : Library) (lib_text : List ℕ → String) (marshal : Json → Checked String)
    (encodes : (h : Hash) → (s : String) × (lib.encode_contract h ≡ good s)) where
  contract_of_good :
      (f : HostFunction) (r : Checked String)
      → contract_of lib lib_text marshal f ≡ ran r
      → (s : String) × (r ≡ good s)
  unfolding contract_of
  contract_of_good other_function r h = ("", sym (ran-eq h))
  contract_of_good (invoke_contract c) r h = elim (Option-cases (contract_id c.contract_address)) [
    | inl e ↦ absurd (crashed_not_ran (rw (e, contract_of) at h))
    | inr (a, e) ↦ let (s, q) = encodes a in (s, sym (ran-eq (rw (e, q, contract_of) at h)))
  ]

  built :
      (close_time sequence : ℕ) (tx : Transaction) (i : ℕ) (op : Operation) (h : HostFunctionOp)
      (id : String) (a : Run Arguments) (ds : Run (List DiagnosticEvent))
      (cs : Run (List ContractCall)) (ss : Run (List StateChange))
      (r : Checked ContractInvocationEvent)
      → (a >>= λ a. ds >>= λ ds. cs >>= λ cs. ss >>= λ ss. ran (
          good
            (build_event lib lib_text marshal close_time sequence tx i op.source h id a ds cs ss)))
        ≡ ran r
      → (e : ContractInvocationEvent) × (r ≡ good e) × (place_of e ≡ place tx i op)
  unfolding build_event
  built close_time sequence tx i op h id (ran a) (ran ds) (ran cs) (ran ss) r q = (
    build_event lib lib_text marshal close_time sequence tx i op.source h id a ds cs ss,
    sym (ran-eq q),
    ap
        (λ b. record {
          transaction_index = tx.index;
          operation_index = i % 2 ^ 32;
          transaction_hash = tx.hash;
          invoking_account = account_of op.source tx.source_account;
          successful = b;
        })
        (succeeds-was_successful tx.results i),
  )
  built close_time sequence tx i op h id (ran a) (ran ds) (ran cs) crashed r q =
      absurd (crashed_not_ran q)
  built close_time sequence tx i op h id (ran a) (ran ds) crashed ss r q =
      absurd (crashed_not_ran q)
  built close_time sequence tx i op h id (ran a) crashed cs ss r q = absurd (crashed_not_ran q)
  built close_time sequence tx i op h id crashed ds cs ss r q = absurd (crashed_not_ran q)

  process_place :
      (close_time sequence : ℕ) (tx : Transaction) (i : ℕ) (op : Operation) (h : HostFunctionOp)
      (r : Checked ContractInvocationEvent)
      → process_contract_invocation lib lib_text marshal close_time sequence tx i op.source h
        ≡ ran r
      → (e : ContractInvocationEvent) × (r ≡ good e) × (place_of e ≡ place tx i op)
  unfolding process_contract_invocation
  process_place close_time sequence tx i op h r q =
      elim (Run-cases (contract_of lib lib_text marshal h.host_function)) [
        | inr e ↦ absurd (crashed_not_ran (rw (e, process_contract_invocation) at q))
        | inl (c, e) ↦
            let (id, g) = contract_of_good h.host_function c e in
            built close_time sequence tx i op h id
              (arguments_of lib lib_text marshal h.host_function)
              (extract_diagnostic_events lib tx.soroban_events) (extract_calls lib h.auth id)
              (extract_state_changes lib (tx.changes (i % 2 ^ 32))) r
              (rw (e, g, process_contract_invocation) at q)
      ]

  operations_places :
      (close_time sequence : ℕ) (tx : Transaction) (i : ℕ) (ops : List Operation)
      (es : List ContractInvocationEvent)
      → events_of_operations lib lib_text marshal close_time sequence tx i ops ≡ ran es
      → map place_of es ≡ places_from tx i ops
  unfolding events_of_operations places_from
  operations_places close_time sequence tx i [] es h = rw (← ran-eq h) refl
  operations_places close_time sequence tx i (op ∷ ops) es h =
      let rest = events_of_operations lib lib_text marshal close_time sequence tx (i + 1) ops in
      elim (Option-cases op.body) [
        | inl e ↦ rw e (
            operations_places close_time sequence tx (i + 1) ops es
              (rw (e, events_of_operations) at h))
        | inr (b, e) ↦
            let (r, p, q) =
              >>=-eq-ran
                (process_contract_invocation lib lib_text marshal close_time sequence tx i op.source
                  b)
                (λ r. rest >>= λ es. ran (append_some (good_one r) es))
                (rw (e, events_of_operations) at h) in
            let (us, p', q') = >>=-eq-ran rest (λ es. ran (append_some (good_one r) es)) q in
            let (x, g, k) = process_place close_time sequence tx i op b r p in
            rw e (
              sym (ap (map place_of) (ran-eq q'))
              ∙ ap (λ r. map place_of (append_some (good_one r) us)) g
              ∙ ap (λ y. y ∷ map place_of us) k
              ∙ ap (λ ps. place tx i op ∷ ps)
                  (operations_places close_time sequence tx (i + 1) ops us p'))
      ]

  reads_places :
      (close_time sequence : ℕ) (found : List ContractInvocationEvent)
      (rs : List (Checked Transaction)) (es : List ContractInvocationEvent)
      → events_of_reads lib lib_text marshal close_time sequence found rs ≡ ran (good es)
      → (txs : List Transaction) × (rs ≡ map good txs)
        × (map place_of es ≡ map place_of found ++ places txs)
  unfolding events_of_reads places
  reads_places close_time sequence found [] es h = (
    [],
    refl,
    sym (ap (map place_of) (good-eq (ran-eq h))) ∙ sym (append-nil (map place_of found)),
  )
  reads_places close_time sequence found (bad e ∷ rs) es h = absurd (bad_not_good (ran-eq h))
  reads_places close_time sequence found (good tx ∷ rs) es h =
      let (us, p, q) =
        >>=-eq-ran
          (events_of_operations lib lib_text marshal close_time sequence tx 0 tx.operations)
          (λ us. events_of_reads lib lib_text marshal close_time sequence (found ++ us) rs) h in
      let (txs, g, k) = reads_places close_time sequence (found ++ us) rs es q in
      (
        tx ∷ txs,
        ap (λ xs. good tx ∷ xs) g,
        k
            ∙ ap (λ ps. ps ++ places txs)
                (map-append place_of found us
                  ∙ ap (λ ps. map place_of found ++ ps)
                      (operations_places close_time sequence tx 0 tx.operations us p))
            ∙ append_assoc (map place_of found) (places_from tx 0 tx.operations) (places txs),
      )

  -- Where strkey encodes every contract's ID: a ledger has its events only if every transaction was
  -- read, and then there is exactly one event for each operation that invokes a host function, in
  -- the order of the transactions and of their operations. Each has the index of its transaction and
  -- of its operation, the transaction's hash, the account of the operation or else of the
  -- transaction, and is successful exactly if the result with the operation's index is there and is
  -- that of an invocation that succeeded.
  pub events_from_ledger-places :
      (close_time sequence : ℕ) (rs : List (Checked Transaction))
      (es : List ContractInvocationEvent)
      → events_from_ledger lib lib_text marshal close_time sequence (good rs) ≡ ran (good es)
      → (txs : List Transaction) × (rs ≡ map good txs) × (map place_of es ≡ places txs)
  unfolding events_from_ledger
  events_from_ledger-places close_time sequence rs es h =
      reads_places close_time sequence [] rs es h
