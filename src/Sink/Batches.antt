-- ===== src/Sink/Batches.antt =====
-- InsertBatch of pkg/consumer/sinks/postgresql/postgresql.go.
use flowctl_sdk.Base.{
  ℕ, ◌+◌, ◌≡◌, ◌≢◌, ◌↔◌, refl, sym, ap, ◌∙◌, Bool, true, false, List, [], ◌∷◌, ◌++◌, Option, none,
  some, String, arith, append_assoc, append-nil,
}
use flowctl_sdk.Errors.{Error, wrapped, Outcome, returned, Result}
use flowctl_sdk.Sink.{
  ScValue, ContractEvent, Row, Db, Tx, RowResult, row, failed, nil_pointer, begin_tx, commit,
  deferred, rollback, Loop, passed, left, fell, exec_row, Answers, finish_batch, row_of,
  insert_loop, insert_batch,
}

-- A loop that was left before its end, with the transaction still open on the same database.
data IsCut (t : Tx) : Loop → Type 0 where
  by_error : (rows : List Row) (x : Error) → IsCut t (left (record t { rows = rows }) x)
  by_panic : (rows : List Row) → IsCut t (fell (record t { rows = rows }))

IsCut-rows : {t : Tx} (rows : List Row) {l : Loop} → IsCut (record t { rows = rows }) l → IsCut t l
IsCut-rows rows (by_error rs x) = by_error rs x
IsCut-rows rows (by_panic rs) = by_panic rs

-- The rows of an event and of those after it, where the database takes the first and has the rest.
abbrev pub add_row : RowResult → Option Error → Option (List Row) → Option (List Row)
add_row (row r) none (some rs) = some (r ∷ rs)
add_row (row r) none none = none
add_row (row r) (some x) rest = none
add_row (failed x) exec rest = none
add_row nil_pointer exec rest = none

abbrev Ends : Tx → Option (List Row) → Loop → Type 0
Ends t (some rs) l = l ≡ passed (record t { rows = t.rows ++ rs })
Ends t none l = IsCut t l

-- What the end of the loop means for the database and the caller.
abbrev Finishes : Option Error → Db → Option (List Row) → Db × Outcome → Type 0
Finishes none db (some rs) q = q ≡ (record db { table = db.table ++ rs }, returned none)
Finishes (some x) db (some rs) q = (q.0 ≡ db) × (q.1 ≢ returned none)
Finishes c db none q = (q.0 ≡ record db { held = db.held + 1 }) × (q.1 ≢ returned none)

step_lem :
    (exec : Option Error) (r : RowResult) (t : Tx) (rest : Option (List Row)) (go : Tx → Loop)
    → ((t' : Tx) → Ends t' rest (go t'))
    → Ends t
        (add_row r exec rest)
        (elim (exec_row exec r t) [ passed t' ↦ go t' | left t' x ↦ left t' x | fell t' ↦ fell t' ])
unfolding exec_row
step_lem none (row r) t (some rs) go h =
    h (record t { rows = t.rows ++ r ∷ [] })
    ∙ ap (λ xs. passed (record t { rows = xs })) (append_assoc t.rows (r ∷ []) rs)
step_lem none (row r) t none go h =
    IsCut-rows (t.rows ++ r ∷ []) (h (record t { rows = t.rows ++ r ∷ [] }))
step_lem (some x) (row r) t rest go h = by_error t.rows _
step_lem exec (failed x) t rest go h = by_error t.rows x
step_lem exec nil_pointer t rest go h = by_panic t.rows

finish_lem :
    (c : Option Error) (db : Db) (o : Option (List Row)) (l : Loop)
    → Ends (begin_tx db) o l
    → Finishes c db o (finish_batch c l)
unfolding finish_batch begin_tx commit deferred rollback
finish_lem none db (some rs) l h = rw h (ground arith)
finish_lem (some x) db (some rs) l h = rw h (ground arith, λ q. ground arith)
finish_lem none db none _ (by_error rows x) = (refl, λ q. ground arith)
finish_lem none db none _ (by_panic rows) = (refl, λ q. ground arith)
finish_lem (some y) db none _ (by_error rows x) = (refl, λ q. ground arith)
finish_lem (some y) db none _ (by_panic rows) = (refl, λ q. ground arith)

-- What a batch comes to, by the answers to BeginTx, PrepareContext and Commit, and by its rows, if
-- every event has one that the database takes.
abbrev pub succeeds : Option Error → Option Error → Option Error → Option (List Row) → Bool
succeeds none none none (some rs) = true
succeeds (some x) p c o = false
succeeds none (some x) c o = false
succeeds none none (some x) o = false
succeeds none none none none = false

-- The rows that it leaves in the table.
abbrev pub kept : Option Error → Option Error → Option Error → Option (List Row) → List Row
kept none none none (some rs) = rs
kept (some x) p c o = []
kept none (some x) c o = []
kept none none (some x) o = []
kept none none none none = []

-- How many connections it leaves taken.
abbrev pub keeps : Option Error → Option Error → Option (List Row) → ℕ
keeps none none none = 1
keeps (some x) p o = 0
keeps none (some x) o = 0
keeps none none (some rs) = 0

abbrev Batched :
    Option Error → Option Error → Option Error → Option (List Row) → Db → Db × Outcome → Type 0
Batched b p c o db q =
    ((q.1 ≡ returned none) ↔ (succeeds b p c o ≡ true))
    × (q.0.table ≡ db.table ++ kept b p c o)
    × (q.0.held ≡ db.held + keeps b p o)

Finishes-Batched :
    (c : Option Error) (o : Option (List Row)) (db : Db) (q : Db × Outcome)
    → Finishes c db o q
    → Batched none none c o db q
Finishes-Batched none (some rs) db q f =
    ((λ _. refl, λ _. ap (λ q. q.1) f), ap (λ q. q.0.table) f, ap (λ q. q.0.held) f ∙ omega arith)
Finishes-Batched (some x) (some rs) db q f = (
  (λ h. absurd (f.1 h), λ h. absurd (ground arith)),
  ap (λ d. d.table) f.0 ∙ sym (append-nil db.table),
  ap (λ d. d.held) f.0 ∙ omega arith,
)
Finishes-Batched none none db q f = (
  (λ h. absurd (f.1 h), λ h. absurd (ground arith)),
  ap (λ d. d.table) f.0 ∙ sym (append-nil db.table),
  ap (λ d. d.held) f.0,
)
Finishes-Batched (some x) none db q f = (
  (λ h. absurd (f.1 h), λ h. absurd (ground arith)),
  ap (λ d. d.table) f.0 ∙ sym (append-nil db.table),
  ap (λ d. d.held) f.0,
)

batch_lem :
    (b p c : Option Error) (o : Option (List Row)) (db : Db) (l : Loop)
    → Ends (begin_tx db) o l
    → Batched b p c o db (elim b [
      | some x ↦ (db, returned (some (wrapped "failed to begin transaction" x)))
      | none ↦ elim p [
        | some x ↦ (
          (deferred (some x) (begin_tx db)).db,
          returned (some (wrapped "failed to prepare statement" x)),
        )
        | none ↦ finish_batch c l
      ]
    ])
unfolding deferred rollback begin_tx
batch_lem (some x) p c o db l h = (
  (λ q. absurd (ground arith), λ q. absurd (ground arith)),
  sym (append-nil db.table),
  omega arith,
)
batch_lem none (some x) c o db l h = (
  (λ q. absurd (ground arith), λ q. absurd (ground arith)),
  sym (append-nil db.table),
  omega arith,
)
batch_lem none none c o db l h = Finishes-Batched c o db (finish_batch c l) (finish_lem c db o l h)

module _ (marshal_topics : List ScValue → Result String)
    (marshal_data : ScValue → Result String) where
  -- The rows of all events, if each has one and the database takes it.
  unfoldable pub rows_of : (ℕ → Option Error) → ℕ → List (Option ContractEvent) → Option (List Row)
  rows_of exec i [] = some []
  rows_of exec i (e ∷ es) =
      add_row (row_of marshal_topics marshal_data e) (exec i) (rows_of exec (i + 1) es)

  loop_lem :
      (exec : ℕ → Option Error) (i : ℕ) (es : List (Option ContractEvent)) (t : Tx)
      → Ends t (rows_of exec i es) (insert_loop marshal_topics marshal_data exec i es t)
  unfolding rows_of insert_loop
  loop_lem exec i [] t = ap (λ xs. passed (record t { rows = xs })) (sym (append-nil t.rows))
  loop_lem exec i (e ∷ es) t =
      step_lem (exec i) (row_of marshal_topics marshal_data e) t (rows_of exec (i + 1) es)
        (λ t'. insert_loop marshal_topics marshal_data exec (i + 1) es t')
        (λ t'. loop_lem exec (i + 1) es t')

  -- A batch of events is written as a whole or not at all. InsertBatch returns no error exactly if
  -- the transaction could begin, be prepared and be committed, and every event had a row that the
  -- database took; then the table has grown by those rows, in order, and else it is as before. An
  -- event that has no row, or whose row the database does not take, leaves the transaction open and
  -- its connection taken, and nothing else does.
  pub insert_batch_atomic :
      (a : Answers) (e : Option ContractEvent) (es : List (Option ContractEvent)) (db : Db)
      → let q = insert_batch marshal_topics marshal_data a (e ∷ es) db in
        let rows = rows_of a.exec 0 (e ∷ es) in
        ((q.1 ≡ returned none) ↔ (succeeds a.beginning a.prepare a.commit rows ≡ true))
        × (q.0.table ≡ db.table ++ kept a.beginning a.prepare a.commit rows)
        × (q.0.held ≡ db.held + keeps a.beginning a.prepare rows)
  unfolding insert_batch
  insert_batch_atomic a e es db =
      batch_lem a.beginning a.prepare a.commit (rows_of a.exec 0 (e ∷ es)) db
        (insert_loop marshal_topics marshal_data a.exec 0 (e ∷ es) (begin_tx db))
        (loop_lem a.exec 0 (e ∷ es) (begin_tx db))
