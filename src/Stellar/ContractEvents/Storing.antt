-- ===== src/Stellar/ContractEvents/Storing.antt =====
-- The contract events of pkg/stellar/processors/contract_events/contract_events.go in the database of
-- pkg/consumer/sinks/postgresql/postgresql.go.
use flowctl_sdk.Base.{
  ℕ, ◌+◌, ◌≡◌, refl, sym, subst, ◌∙◌, List, [], ◌∷◌, ◌++◌, Option, none, some, String, map, Bool,
  true, append-nil,
}
use flowctl_sdk.Errors.{Error, returned, Result, good}
use flowctl_sdk.Sink.{ScValue, Row, Db, row, Answers, row_of, insert_batch}
use flowctl_sdk.Sink.Batches.{rows_of, succeeds, kept, insert_batch_atomic}
use flowctl_sdk.Sink as S
use flowctl_sdk.Stellar.Panics as P
use flowctl_sdk.Stellar.ContractEvents.Texts.{Library}
use flowctl_sdk.Stellar.ContractEvents.{
  ContractEvent, Transaction, events_from_ledger, proto_event, convert_to_proto,
}
use flowctl_sdk.Stellar.ContractEvents.Additions.{Spot, spot_of}
use flowctl_sdk.Stellar.ContractEvents.Order.{ledger_spots, events_from_ledger_spots}

-- Where a row says that its event stands.
abbrev pub row_spot : Row → Spot
row_spot r = record {
  place = record {
    ledger_sequence = r.ledger_sequence;
    close_time = r.timestamp;
    hash = r.transaction_hash;
    transaction_index = r.transaction_index;
    successful = r.in_successful_tx;
  };
  contract_id = r.contract_id;
  event_index = r.event_index;
  operation_index = r.operation_index;
}

-- What the message of an event says of its transaction's success, in its meta and in itself.
abbrev pub said_success : Option S.ContractEvent → Option (Bool × Bool)
said_success none = none
said_success (some m) = elim m.meta [
  | none ↦ none
  | some t ↦ some (t.tx_successful, m.in_successful_tx)
]

-- Each message says it as its event does.
messages :
    (es : List ContractEvent)
    → map said_success (convert_to_proto es)
      ≡ map (λ e. some (e.in_successful_tx, e.in_successful_tx)) es
unfolding convert_to_proto proto_event
messages [] = refl
messages (e ∷ es) = λ i. some (e.in_successful_tx, e.in_successful_tx) ∷ messages es i

-- A statement on the answers of a batch holds where it holds for no errors and these rows.
at_answers :
    (P : Option Error → Option Error → Option Error → Option (List Row) → Type 0) (a : Answers)
    {o : Option (List Row)} {rs : List Row}
    → (a.beginning ≡ none) × (a.prepare ≡ none) × (a.commit ≡ none) × ((i : ℕ) → a.exec i ≡ none)
    → o ≡ some rs
    → P none none none (some rs)
    → P a.beginning a.prepare a.commit o
at_answers P a {o} h q x =
    subst (λ b. P b a.prepare a.commit o) (sym h.0)
      (subst (λ p. P none p a.commit o) (sym h.1)
        (subst (λ c. P none none c o) (sym h.2) (subst (λ o. P none none none o) (sym q) x)))

module _ (marshal_topics : List ScValue → Result String)
    (marshal_data : ScValue → Result String) where
  -- A row holds an event: its place, its type, and the JSON of its topics and of its data.
  pub record Holds (e : ContractEvent) (r : Row) : Type 0 where
    pub spot : row_spot r ≡ spot_of e
    pub event_type : r.event_type ≡ e.event_type
    pub topics : marshal_topics e.topics ≡ good r.topics
    pub body : marshal_data e.body ≡ good r.body

  -- One row for each event, in order.
  abbrev pub Hold : List ContractEvent → List Row → Type 0
  Hold [] [] = Unit
  Hold (e ∷ es) (r ∷ rs) = Holds e r × Hold es rs
  Hold [] (r ∷ rs) = ⊥
  Hold (e ∷ es) [] = ⊥

  Hold-spots :
      (es : List ContractEvent) (rs : List Row) → Hold es rs → map row_spot rs ≡ map spot_of es
  Hold-spots [] [] h = refl
  Hold-spots [] (r ∷ rs) h = absurd h
  Hold-spots (e ∷ es) [] h = absurd h
  Hold-spots (e ∷ es) (r ∷ rs) h = λ i. h.0.spot i ∷ Hold-spots es rs h.1 i

module _ (marshal_topics : List ScValue → Result String) (marshal_data : ScValue → Result String)
    (topics_good : (ts : List ScValue) → (s : String) × (marshal_topics ts ≡ good s))
    (data_good : (v : ScValue) → (s : String) × (marshal_data v ≡ good s)) where
  row_of-proto_event :
      (e : ContractEvent)
      → (r : Row) × (row_of marshal_topics marshal_data (some (proto_event e)) ≡ row r)
        × Holds marshal_topics marshal_data e r
  unfolding row_of proto_event
  row_of-proto_event e =
      let (t, p) = topics_good e.topics in
      let (d, q) = data_good e.body in
      (
        record {
          timestamp = e.timestamp;
          ledger_sequence = e.ledger_sequence;
          transaction_hash = e.transaction_hash;
          transaction_index = e.transaction_index;
          contract_id = e.contract_id;
          event_type = e.event_type;
          topics = t;
          body = d;
          in_successful_tx = e.in_successful_tx;
          event_index = e.event_index;
          operation_index = e.operation_index;
        },
        rw (p, q, row_of) refl,
        record { spot = refl; event_type = refl; topics = p; body = q },
      )

  converted_rows :
      (exec : ℕ → Option Error) (free : (i : ℕ) → exec i ≡ none) (i : ℕ) (es : List ContractEvent)
      → (rs : List Row) × (rows_of marshal_topics marshal_data exec i (convert_to_proto es)
          ≡ some rs)
        × Hold marshal_topics marshal_data es rs
  unfolding rows_of convert_to_proto
  converted_rows exec free i [] = ([], refl, tt)
  converted_rows exec free i (e ∷ es) =
      let (r, p, k) = row_of-proto_event e in
      let (rs, q, ks) = converted_rows exec free (i + 1) es in
      (r ∷ rs, rw (p, free i, q) refl, (k, ks))

  stored :
      (a : Answers) (es : List ContractEvent) (db : Db)
      → (a.beginning ≡ none) × (a.prepare ≡ none) × (a.commit ≡ none) × ((i : ℕ) → a.exec i ≡ none)
      → let q = insert_batch marshal_topics marshal_data a (convert_to_proto es) db in
        (q.1 ≡ returned none)
        × (rs : List Row) × (q.0.table ≡ db.table ++ rs)
        × Hold marshal_topics marshal_data es rs
  unfolding convert_to_proto insert_batch
  stored a [] db h = (refl, [], sym (append-nil db.table), tt)
  stored a (e ∷ es) db h =
      let (rs, q, k) = converted_rows a.exec h.3 0 (e ∷ es) in
      let b =
        insert_batch_atomic marshal_topics marshal_data a (some (proto_event e))
          (convert_to_proto es) db in
      (
        b.0.1 (at_answers (λ b p c o. succeeds b p c o ≡ true) a h q refl),
        rs,
        b.1 ∙ at_answers (λ b p c o. db.table ++ kept b p c o ≡ db.table ++ rs) a h q refl,
        k,
      )

  -- Where no call of the database or of JSON fails, the batch of a ledger's events is stored: InsertBatch
  -- returns no error, and the table has grown by one row for each event, in order. The rows' columns
  -- are the ledger's contract events as they stand in its transactions: ledger, closing time,
  -- transaction, its index and success, contract, event and operation index; and each row has its
  -- event's type and the JSON of its topics and data. Each message tells the transaction's success in
  -- its meta, which is not stored, as in the event.
  pub insert_batch-convert_to_proto :
      (lib : Library) (sequence close_time : ℕ) (reads : List (P.Checked Transaction))
      (es : List ContractEvent) (a : Answers) (db : Db)
      → events_from_ledger lib sequence close_time (P.good reads) ≡ P.ran (P.good es)
      → (a.beginning ≡ none) × (a.prepare ≡ none) × (a.commit ≡ none) × ((i : ℕ) → a.exec i ≡ none)
      → let q = insert_batch marshal_topics marshal_data a (convert_to_proto es) db in
        (q.1 ≡ returned none)
        × (txs : List Transaction) × (rs : List Row) × (reads ≡ map P.good txs)
        × (q.0.table ≡ db.table ++ rs)
        × (map row_spot rs ≡ ledger_spots lib sequence close_time 0 txs)
        × Hold marshal_topics marshal_data es rs
        × (map said_success (convert_to_proto es)
            ≡ map (λ e. some (e.in_successful_tx, e.in_successful_tx)) es)
  insert_batch-convert_to_proto lib sequence close_time reads es a db found h =
      let (o, rs, t, k) = stored a es db h in
      let (txs, g, s) = events_from_ledger_spots lib sequence close_time reads es found in
      (o, txs, rs, g, t, Hold-spots marshal_topics marshal_data es rs k ∙ s, k, messages es)
