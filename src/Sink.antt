-- ===== src/Sink.antt =====
-- pkg/consumer/sinks/postgresql/postgresql.go. The database and database/sql are outside: a call's
-- answer is an argument, `none` where it returns no error. Of the database the model keeps the rows of
-- the table and how many connections open transactions hold. The caller's context stays alive: at its
-- end database/sql would roll back what is still open.
pub mod Batches
pub mod Histories
pub mod Opening
pub mod Stats
use flowctl_sdk.Base.{
  ℕ, ◌+◌, ◌-◌, Bool, true, false, List, [], ◌∷◌, ◌++◌, Option, none, some, String, if◌then◌else◌,
}
use flowctl_sdk.Errors.{Error, wrapped, Outcome, returned, panicked, Result, good, bad}

-- A ScValue of the generated protocol.
pub record ScValue : Type 0 where
  pub xdr_base64 : String
  pub json : String

pub record EventMeta : Type 0 where
  pub ledger_sequence : ℕ
  pub ledger_closed_at : ℕ
  pub tx_hash : String
  pub tx_successful : Bool
  pub tx_index : ℕ

-- A ContractEvent of the generated protocol; `meta` is a pointer.
pub record ContractEvent : Type 0 where
  pub meta : Option EventMeta
  pub contract_id : String
  pub event_type : String
  pub topics : List ScValue
  pub body : ScValue
  pub in_successful_tx : Bool
  pub event_index : ℕ
  pub operation_index : Option ℕ

-- A row of contract_events.
pub record Row : Type 0 where
  pub timestamp : ℕ
  pub ledger_sequence : ℕ
  pub transaction_hash : String
  pub transaction_index : ℕ
  pub contract_id : String
  pub event_type : String
  pub topics : String
  pub body : String
  pub in_successful_tx : Bool
  pub event_index : ℕ
  pub operation_index : Option ℕ

pub record Db : Type 0 where
  pub table : List Row
  pub held : ℕ

-- A transaction: the database, the rows that it has inserted, and whether it has ended.
pub record Tx : Type 0 where
  pub db : Db
  pub rows : List Row
  pub done : Bool

-- What the loop body makes of an event: a row, an error, or a nil pointer that it reads through.
pub data RowResult : Type 0 where
  row : Row → RowResult
  failed : Error → RowResult
  nil_pointer : RowResult

unfoldable pub build_row : Option EventMeta → ContractEvent → String → String → RowResult
build_row none e topics body = nil_pointer
build_row (some m) e topics body = row (record {
  timestamp = m.ledger_closed_at;
  ledger_sequence = m.ledger_sequence;
  transaction_hash = m.tx_hash;
  transaction_index = m.tx_index;
  contract_id = e.contract_id;
  event_type = e.event_type;
  topics = topics;
  body = body;
  in_successful_tx = e.in_successful_tx;
  event_index = e.event_index;
  operation_index = e.operation_index;
})

-- What follows the row: ExecContext outside a transaction.
unfoldable pub insert_row : Option Error → RowResult → Db → Db × Outcome
insert_row exec nil_pointer db = (db, panicked)
insert_row exec (failed x) db = (db, returned (some x))
insert_row (some x) (row r) db = (db, returned (some (wrapped "failed to insert event" x)))
insert_row none (row r) db = (record db { table = db.table ++ r ∷ [] }, returned none)

-- BeginTx takes a connection.
unfoldable pub begin_tx : Db → Tx
begin_tx db = record { db = record db { held = db.held + 1 }; rows = []; done = false }

-- Commit and Rollback end a transaction that has not ended, and give its connection back, also
-- where they return an error; a Commit with an error leaves the table alone.
unfoldable pub commit : Option Error → Tx → Tx
commit none t = record t {
  db = record { table = t.db.table ++ t.rows; held = t.db.held - 1 };
  done = true;
}
commit (some x) t = record t { db = record t.db { held = t.db.held - 1 }; done = true }

unfoldable pub rollback : Tx → Tx
rollback t =
    if t.done then t else record t { db = record t.db { held = t.db.held - 1 }; done = true }

-- The deferred function, which looks at the function's own `err`.
unfoldable pub deferred : Option Error → Tx → Tx
unfolding rollback
deferred none t = t
deferred (some x) t = rollback t

-- How the loop over the events ends: after the last one, or by a return or a panic.
pub data Loop : Type 0 where
  passed : Tx → Loop
  left : Tx → Error → Loop
  fell : Tx → Loop

-- ExecContext of the prepared statement.
unfoldable pub exec_row : Option Error → RowResult → Tx → Loop
exec_row exec nil_pointer t = fell t
exec_row exec (failed x) t = left t x
exec_row (some x) (row r) t = left t (wrapped "failed to insert event" x)
exec_row none (row r) t = passed (record t { rows = t.rows ++ r ∷ [] })

-- The answers of the calls of one InsertBatch.
pub record Answers : Type 0 where
  pub beginning : Option Error
  pub prepare : Option Error
  pub exec : ℕ → Option Error
  pub commit : Option Error

-- What follows the loop. The errors of the loop are variables of its own body, so that the
-- deferred function finds no error when the loop is left.
unfoldable pub finish_batch : Option Error → Loop → Db × Outcome
unfolding commit deferred
finish_batch c (left t x) = ((deferred none t).db, returned (some x))
finish_batch c (fell t) = ((deferred none t).db, panicked)
finish_batch none (passed t) = ((deferred none (commit none t)).db, returned none)
finish_batch (some x) (passed t) = (
  (deferred (some x) (commit (some x) t)).db,
  returned (some (wrapped "failed to commit transaction" x)),
)

-- json.Marshal of the topics and of the data.
module _ (marshal_topics : List ScValue → Result String)
    (marshal_data : ScValue → Result String) where
  unfoldable pub row_of : Option ContractEvent → RowResult
  unfolding build_row
  row_of none = nil_pointer
  row_of (some e) = elim (marshal_topics e.topics) [
    | bad x ↦ failed (wrapped "failed to marshal topics" x)
    | good topics ↦ elim (marshal_data e.body) [
      | bad x ↦ failed (wrapped "failed to marshal data" x)
      | good body ↦ build_row e.meta e topics body
    ]
  ]

  unfoldable pub insert_event : Option Error → Option ContractEvent → Db → Db × Outcome
  unfolding row_of insert_row
  insert_event exec e db = insert_row exec (row_of e) db

  -- `exec` answers for the first event, the second and so on.
  unfoldable pub insert_loop : (ℕ → Option Error) → ℕ → List (Option ContractEvent) → Tx → Loop
  unfolding row_of exec_row
  insert_loop exec i [] t = passed t
  insert_loop exec i (e ∷ es) t = elim (exec_row (exec i) (row_of e) t) [
    | passed t' ↦ insert_loop exec (i + 1) es t'
    | left t' x ↦ left t' x
    | fell t' ↦ fell t'
  ]

  unfoldable pub insert_batch : Answers → List (Option ContractEvent) → Db → Db × Outcome
  unfolding begin_tx insert_loop finish_batch
  insert_batch a [] db = (db, returned none)
  insert_batch a (e ∷ es) db = elim a.beginning [
    | some x ↦ (db, returned (some (wrapped "failed to begin transaction" x)))
    | none ↦ elim a.prepare [
      | some x ↦ (
        (deferred (some x) (begin_tx db)).db,
        returned (some (wrapped "failed to prepare statement" x)),
      )
      | none ↦ finish_batch a.commit (insert_loop a.exec 0 (e ∷ es) (begin_tx db))
    ]
  ]
