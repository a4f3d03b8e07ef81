-- ===== src/Stellar/ContractEvents/Additions.antt =====
-- How pkg/stellar/processors/contract_events/contract_events.go numbers the events of a transaction.
use mathlib.Core.List.{map-append}
use flowctl_sdk.Base.{
  ℕ, suc, ◌+◌, ◌%◌, ◌^◌, ◌≡◌, refl, sym, ap, ◌∙◌, subst, inl, inr, List, [], ◌∷◌, ◌++◌, Option,
  some, String, map, select, length, length-append, append_assoc, append-nil, Bool-cases, arith,
}
use flowctl_sdk.Stellar.Panics.{ran, ◌>>=◌, >>=-eq-ran, ran-eq}
use flowctl_sdk.Stellar.Xdr as X
use flowctl_sdk.Stellar.ContractEvents.Texts.{Library}
use flowctl_sdk.Stellar.ContractEvents.{
  ContractEvent, Place, Found, contract_text, described, described_topics, build_event,
  process_contract_event, add_event, add_events, add_operations,
}

-- Where an event of the ledger stands, and of which contract it is.
pub record Spot : Type 0 where
  pub place : Place
  pub contract_id : String
  pub event_index : ℕ
  pub operation_index : Option ℕ

abbrev pub spot_of : ContractEvent → Spot
spot_of e = record {
  place = record {
    ledger_sequence = e.ledger_sequence;
    close_time = e.timestamp;
    hash = e.transaction_hash;
    transaction_index = e.transaction_index;
    successful = e.in_successful_tx;
  };
  contract_id = e.contract_id;
  event_index = e.event_index;
  operation_index = e.operation_index;
}

abbrev pub Marked : Type 0
Marked = Option ℕ × X.ContractEvent

-- The contract events of an operation, or of the transaction itself.
unfoldable pub marked : Option ℕ → List X.ContractEvent → List Marked
marked op es = map (λ e. (op, e)) (select (λ e. e.is_contract) es)

-- Those of the operations, from operation `i`.
unfoldable pub marked_operations : ℕ → List (List X.ContractEvent) → List Marked
marked_operations i [] = []
marked_operations i (es ∷ ops) = marked (some (i % 2 ^ 32)) es ++ marked_operations (i + 1) ops

module _ (lib : Library) where
  -- Events of a transaction, numbered from `n`.
  unfoldable pub spots : Place → ℕ → List Marked → List Spot
  spots p n [] = []
  spots p n ((op, e) ∷ ms) =
      record {
        place = p;
        contract_id = contract_text lib e.emitter;
        event_index = n % 2 ^ 32;
        operation_index = op;
      }
      ∷ spots p (n + 1) ms

  spots-append :
      (p : Place) (n : ℕ) (ms ns : List Marked)
      → spots p n (ms ++ ns) ≡ spots p n ms ++ spots p (n + length ms) ns
  unfolding spots
  spots-append p n [] ns = ap (λ k. spots p k ns) (omega arith)
  spots-append p n ((op, e) ∷ ms) ns =
      let a : n + 1 + length ms ≡ n + suc (length ms) = omega arith in
      rw (spots-append p (n + 1) ms ns, a)

  -- From `f` to `g` the events `ms` were added, the first of them as number `n`.
  abbrev pub Adds : Place → ℕ → List Marked → Found → Found → Type 0
  Adds p n ms f g =
      (map spot_of g.events ≡ map spot_of f.events ++ spots p n ms)
      × (g.next ≡ (n + length ms) % 2 ^ 32)

  pub Adds-append :
      (p : Place) (n : ℕ) (ms ns : List Marked) (f g h : Found)
      → Adds p n ms f g
      → Adds p (n + length ms) ns g h
      → Adds p n (ms ++ ns) f h
  Adds-append p n ms ns f g h a b = (
    b.0
        ∙ ap (λ xs. xs ++ spots p (n + length ms) ns) a.0
        ∙ append_assoc (map spot_of f.events) (spots p n ms) (spots p (n + length ms) ns)
        ∙ ap (λ xs. map spot_of f.events ++ xs) (sym (spots-append p n ms ns)),
    b.1 ∙ ap (λ k. k % 2 ^ 32) (omega (arith, length-append ms ns)),
  )

  Adds-nil : (p : Place) (n : ℕ) (f : Found) → f.next ≡ n % 2 ^ 32 → Adds p n [] f f
  unfolding spots
  Adds-nil p n f h =
      (sym (append-nil (map spot_of f.events)), h ∙ ap (λ k. k % 2 ^ 32) (omega arith))

  event_spot :
      (p : Place) (e : X.ContractEvent) (i : ℕ) (op : Option ℕ) (c : ContractEvent)
      → process_contract_event lib p e i op ≡ ran c
      → spot_of c ≡ record {
        place = p;
        contract_id = contract_text lib e.emitter;
        event_index = i;
        operation_index = op;
      }
  unfolding process_contract_event build_event
  event_spot p e i op c h =
      let (ts, q, r) =
        >>=-eq-ran (described_topics lib e.topics)
          (λ ts. described lib e.body_data >>= λ b. ran (build_event lib p e i op ts b)) h in
      let (b, q', r') =
        >>=-eq-ran (described lib e.body_data) (λ b. ran (build_event lib p e i op ts b)) r in
      sym (ap spot_of (ran-eq r'))

  marked-cons :
      (op : Option ℕ) (e : X.ContractEvent) (es : List X.ContractEvent)
      → marked op (e ∷ es) ≡ marked op (e ∷ []) ++ marked op es
  unfolding marked
  marked-cons op e es = elim (Bool-cases e.is_contract) [ inl c ↦ rw c refl | inr c ↦ rw c refl ]

  add_event-Adds :
      (p : Place) (op : Option ℕ) (e : X.ContractEvent) (n : ℕ) (f g : Found)
      → f.next ≡ n % 2 ^ 32
      → add_event lib p op e f ≡ ran g
      → Adds p n (marked op (e ∷ [])) f g
  unfolding add_event marked spots
  add_event-Adds p op e n f g h q = elim (Bool-cases e.is_contract) [
    | inr c ↦
        let k : f ≡ g = ran-eq (rw (c, add_event) at q) in
        let m : marked op (e ∷ []) ≡ [] = rw (c, marked) refl in
        subst (λ g. Adds p n (marked op (e ∷ [])) f g) k
          (subst (λ ms. Adds p n ms f f) (sym m) (Adds-nil p n f h))
    | inl c ↦
        let m : marked op (e ∷ []) ≡ (op, e) ∷ [] = rw (c, marked) refl in
        let (x, r, s) =
          >>=-eq-ran (process_contract_event lib p e f.next op)
            (λ c. ran (record { events = f.events ++ c ∷ []; next = (f.next + 1) % 2 ^ 32 }))
            (rw (c, add_event) at q) in
        subst (λ g. Adds p n (marked op (e ∷ [])) f g) (ran-eq s)
          (subst
            (λ ms.
              Adds p n ms f (record { events = f.events ++ x ∷ []; next = (f.next + 1) % 2 ^ 32 }))
            (sym m)
            (
              map-append spot_of f.events (x ∷ [])
                  ∙ ap (λ s. map spot_of f.events ++ s ∷ [])
                      (event_spot p e f.next op x r
                        ∙ ap
                            (λ k. record {
                              place = p;
                              contract_id = contract_text lib e.emitter;
                              event_index = k;
                              operation_index = op;
                            })
                            h),
              omega arith,
            ))
  ]

  pub add_events-Adds :
      (p : Place) (op : Option ℕ) (es : List X.ContractEvent) (n : ℕ) (f g : Found)
      → f.next ≡ n % 2 ^ 32
      → add_events lib p op es f ≡ ran g
      → Adds p n (marked op es) f g
  unfolding add_events marked
  add_events-Adds p op [] n f g h q =
      subst (λ g. Adds p n (marked op []) f g) (ran-eq q) (Adds-nil p n f h)
  add_events-Adds p op (e ∷ es) n f g h q =
      let (f', r, s) = >>=-eq-ran (add_event lib p op e f) (λ f'. add_events lib p op es f') q in
      let a = add_event-Adds p op e n f f' h r in
      subst (λ ms. Adds p n ms f g) (sym (marked-cons op e es))
        (Adds-append p n (marked op (e ∷ [])) (marked op es) f f' g a
          (add_events-Adds p op es (n + length (marked op (e ∷ []))) f' g a.1 s))

  pub add_operations-Adds :
      (p : Place) (i : ℕ) (ops : List (List X.ContractEvent)) (n : ℕ) (f g : Found)
      → f.next ≡ n % 2 ^ 32
      → add_operations lib p i ops f ≡ ran g
      → Adds p n (marked_operations i ops) f g
  unfolding add_operations marked_operations
  add_operations-Adds p i [] n f g h q = subst (λ g. Adds p n [] f g) (ran-eq q) (Adds-nil p n f h)
  add_operations-Adds p i (es ∷ ops) n f g h q =
      let op = some (i % 2 ^ 32) in
      let (f', r, s) =
        >>=-eq-ran (add_events lib p op es f) (λ f'. add_operations lib p (i + 1) ops f') q in
      let a = add_events-Adds p op es n f f' h r in
      Adds-append p n (marked op es) (marked_operations (i + 1) ops) f f' g a
        (add_operations-Adds p (i + 1) ops (n + length (marked op es)) f' g a.1 s)
