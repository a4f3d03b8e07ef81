-- ===== src/Stellar/ContractEvents/Order.antt =====
-- Which events pkg/stellar/processors/contract_events/contract_events.go makes of a ledger, and how it
-- numbers them.
use mathlib.Core.List.{map-append}
use flowctl_sdk.Base.{
  ℕ, ◌+◌, ◌%◌, ◌^◌, ◌≡◌, refl, sym, ap, ◌∙◌, inl, inr, Bool, true, false, List, [], ◌∷◌, ◌++◌, none,
  String, if◌then◌else◌, map, length, append_assoc, append-nil, Bool-cases, arith,
}
use flowctl_sdk.Stellar.Panics.{ran, ◌>>=◌, Checked, good, bad, >>=-eq-ran, ran-eq}
use flowctl_sdk.Stellar.ContractEvents.Texts.{Library}
use flowctl_sdk.Stellar.ContractEvents.{
  ContractEvent, TransactionEvents, Transaction, Place, Found, add_events, add_operations,
  extract_events, events_of_reads, events_from_ledger,
}
use flowctl_sdk.Stellar.ContractEvents.Additions.{
  Spot, spot_of, marked, marked_operations, spots, Adds-append, add_events-Adds,
  add_operations-Adds,
}

if_true {ℓ} : {A : Type ℓ} {b : Bool} → b ≡ true → (x y : A) → (if b then x else y) ≡ x
if_true h x y = ground arith

if_false {ℓ} : {A : Type ℓ} {b : Bool} → b ≡ false → (x y : A) → (if b then x else y) ≡ y
if_false h x y = ground arith

good-eq : {A : Type 0} {a b : A} → good a ≡ good b → a ≡ b
good-eq h = cc

bad_not_good : {A : Type 0} {e : String} {a : A} → bad e ≡ good a → ⊥
bad_not_good h = ground arith

module _ (lib : Library) where
  -- The events of one transaction, by its place.
  pub transaction_spots : Place → Checked TransactionEvents → List Spot
  transaction_spots p (bad e) = []
  transaction_spots p (good t) =
      if p.successful
      then spots lib p 0
          (marked_operations 0 t.operation_events ++ marked none t.transaction_events)
      else []

  pub ledger_spots : ℕ → ℕ → ℕ → List Transaction → List Spot
  ledger_spots sequence close_time i [] = []
  ledger_spots sequence close_time i (tx ∷ txs) =
      transaction_spots
        (record {
          ledger_sequence = sequence;
          close_time = close_time;
          hash = tx.hash;
          transaction_index = i % 2 ^ 32;
          successful = tx.successful;
        })
        tx.events
      ++ ledger_spots sequence close_time (i + 1) txs

  extract_events_spots :
      (p : Place) (t : Checked TransactionEvents) (es : List ContractEvent)
      → extract_events lib p t ≡ ran es
      → map spot_of es ≡ transaction_spots p t
  unfolding extract_events transaction_spots
  extract_events_spots p (bad e) es h = ap (map spot_of) (sym (ran-eq h))
  extract_events_spots p (good t) es h = elim (Bool-cases p.successful) [
    | inr c ↦ ap (map spot_of) (sym (ran-eq (sym (if_false c _ _) ∙ h))) ∙ sym (if_false c _ _)
    | inl c ↦
        let start : Found = record { events = []; next = 0 } in
        let k = sym (if_true c _ _) ∙ h in
        let (f, q, r) =
          >>=-eq-ran (add_operations lib p 0 t.operation_events start)
            (λ f. add_events lib p none t.transaction_events f >>= λ g. ran g.events) k in
        let (g, q', r') =
          >>=-eq-ran (add_events lib p none t.transaction_events f) (λ g. ran g.events) r in
        let a = add_operations-Adds lib p 0 t.operation_events 0 start f refl q in
        let ms = marked_operations 0 t.operation_events in
        let b =
          Adds-append lib p 0 ms (marked none t.transaction_events) start f g a
            (add_events-Adds lib p none t.transaction_events (0 + length ms) f g a.1 q') in
        ap (map spot_of) (sym (ran-eq r')) ∙ b.0 ∙ sym (if_true c _ _)
  ]

  reads_spots :
      (sequence close_time i n : ℕ) (found : List ContractEvent) (rs : List (Checked Transaction))
      (es : List ContractEvent)
      → i ≡ n % 2 ^ 32
      → events_of_reads lib sequence close_time i found rs ≡ ran (good es)
      → (txs : List Transaction) × (rs ≡ map good txs)
        × (map spot_of es ≡ map spot_of found ++ ledger_spots sequence close_time n txs)
  unfolding events_of_reads ledger_spots
  reads_spots sequence close_time i n found [] es k h =
      ([], refl, sym (ap (map spot_of) (good-eq (ran-eq h))) ∙ sym (append-nil (map spot_of found)))
  reads_spots sequence close_time i n found (bad e ∷ rs) es k h = absurd (bad_not_good (ran-eq h))
  reads_spots sequence close_time i n found (good tx ∷ rs) es k h =
      let place_at : ℕ → Place = λ (j : ℕ). record {
        ledger_sequence = sequence;
        close_time = close_time;
        hash = tx.hash;
        transaction_index = j;
        successful = tx.successful;
      } in
      let (us, p, q) =
        >>=-eq-ran (extract_events lib (place_at i) tx.events)
          (λ us. events_of_reads lib sequence close_time ((i + 1) % 2 ^ 32) (found ++ us) rs) h in
      let (txs, g, r) =
        reads_spots sequence close_time ((i + 1) % 2 ^ 32) (n + 1) (found ++ us) rs es (omega arith)
          q in
      (
        tx ∷ txs,
        ap (λ xs. good tx ∷ xs) g,
        r
            ∙ ap (λ xs. xs ++ ledger_spots sequence close_time (n + 1) txs)
                (map-append spot_of found us
                  ∙ ap (λ xs. map spot_of found ++ xs)
                      (extract_events_spots (place_at i) tx.events us p
                        ∙ ap (λ j. transaction_spots (place_at j) tx.events) k))
            ∙ append_assoc (map spot_of found) (transaction_spots (place_at (n % 2 ^ 32)) tx.events)
                (ledger_spots sequence close_time (n + 1) txs),
      )

  -- A ledger has its events only if every transaction was read. Then they are, in order, the contract
  -- events of its successful transactions, first those of the operations and then those of the
  -- transaction itself. Each has the index of its transaction, failed ones counted; its own index,
  -- counted anew in each transaction over contract events alone; the index of its operation, if it is
  -- one's; and its contract.
  pub events_from_ledger_spots :
      (sequence close_time : ℕ) (rs : List (Checked Transaction)) (es : List ContractEvent)
      → events_from_ledger lib sequence close_time (good rs) ≡ ran (good es)
      → (txs : List Transaction) × (rs ≡ map good txs)
        × (map spot_of es ≡ ledger_spots sequence close_time 0 txs)
  unfolding events_from_ledger
  events_from_ledger_spots sequence close_time rs es h =
      reads_spots sequence close_time 0 0 [] rs es refl h
