-- ===== src/Sink/Histories.antt =====
-- One InsertBatch of pkg/consumer/sinks/postgresql/postgresql.go after another, on one database and
-- within one context.
use flowctl_sdk.Base.{
  ℕ, ◌+◌, ◌≡◌, ◌↔◌, refl, sym, ap, ◌∙◌, Bool, true, false, List, [], ◌∷◌, ◌++◌, Option, none, some,
  String, arith, map, append_assoc, append-nil,
}
use flowctl_sdk.Errors.{Outcome, returned, panicked, Result}
use flowctl_sdk.Sink.{ScValue, ContractEvent, Row, Db, Answers, insert_batch}
use flowctl_sdk.Sink.Batches.{rows_of, succeeds, kept, keeps, insert_batch_atomic}

-- A call: what the database answers to it, and the events of the batch.
abbrev pub Call : Type 0
Call = Answers × List (Option ContractEvent)

abbrev pub reports_success : Outcome → Bool
reports_success (returned none) = true
reports_success (returned (some x)) = false
reports_success panicked = false

reports_success_lem :
    (o : Outcome) (b : Bool) → (o ≡ returned none) ↔ (b ≡ true) → reports_success o ≡ b
reports_success_lem (returned none) b h = sym (h.0 refl)
reports_success_lem (returned (some x)) false h = refl
reports_success_lem (returned (some x)) true h = absurd (let q = h.1 refl in ground arith)
reports_success_lem panicked false h = refl
reports_success_lem panicked true h = absurd (let q = h.1 refl in ground arith)

module _ (marshal_topics : List ScValue → Result String)
    (marshal_data : ScValue → Result String) where
  -- The database after the calls, and what each of them reports.
  unfoldable pub insert_batches : List Call → Db → Db × List Bool
  insert_batches [] db = (db, [])
  insert_batches ((a, es) ∷ calls) db =
      let (d, o) = insert_batch marshal_topics marshal_data a es db in
      let (d', os) = insert_batches calls d in (d', reports_success o ∷ os)

  abbrev rows : Call → Option (List Row)
  rows (a, es) = rows_of marshal_topics marshal_data a.exec 0 es

  -- Of a call alone: whether it succeeds, the rows that it writes, and the connections that it
  -- leaves taken. An empty batch does nothing.
  abbrev pub call_succeeds : Call → Bool
  call_succeeds (a, []) = true
  call_succeeds (a, e ∷ es) = succeeds a.beginning a.prepare a.commit (rows (a, e ∷ es))

  abbrev pub call_rows : Call → List Row
  call_rows (a, []) = []
  call_rows (a, e ∷ es) = kept a.beginning a.prepare a.commit (rows (a, e ∷ es))

  abbrev pub call_takes : Call → ℕ
  call_takes (a, []) = 0
  call_takes (a, e ∷ es) = keeps a.beginning a.prepare (rows (a, e ∷ es))

  unfoldable pub all_rows : List Call → List Row
  all_rows [] = []
  all_rows (c ∷ calls) = call_rows c ++ all_rows calls

  unfoldable pub all_taken : List Call → ℕ
  all_taken [] = 0
  all_taken (c ∷ calls) = call_takes c + all_taken calls

  one_call :
      (c : Call) (db : Db)
      → let q = insert_batch marshal_topics marshal_data c.0 c.1 db in
        (reports_success q.1 ≡ call_succeeds c)
        × (q.0.table ≡ db.table ++ call_rows c)
        × (q.0.held ≡ db.held + call_takes c)
  unfolding insert_batch
  one_call (a, []) db = (refl, sym (append-nil db.table), omega arith)
  one_call (a, e ∷ es) db =
      let (s, t, h) = insert_batch_atomic marshal_topics marshal_data a e es db in
      (reports_success_lem _ _ s, t, h)

  -- After any calls of InsertBatch, each reports success exactly if its own answers let it succeed;
  -- the table has grown by the rows of the calls that succeed, in order, and by nothing of the
  -- others; and the connections that open transactions hold have grown by one for each call that a
  -- failing event ended.
  pub insert_batches_lem :
      (calls : List Call) (db : Db)
      → let q = insert_batches calls db in
        (q.1 ≡ map call_succeeds calls)
        × (q.0.table ≡ db.table ++ all_rows calls)
        × (q.0.held ≡ db.held + all_taken calls)
  unfolding insert_batches all_rows all_taken
  insert_batches_lem [] db = (refl, sym (append-nil db.table), omega arith)
  insert_batches_lem (c ∷ calls) db =
      let q = insert_batch marshal_topics marshal_data c.0 c.1 db in
      let (s, t, h) = one_call c db in
      let (ss, ts, hs) = insert_batches_lem calls q.0 in
      (
        (λ i. s i ∷ ss i),
        ts
            ∙ ap (λ xs. xs ++ all_rows calls) t
            ∙ append_assoc db.table (call_rows c) (all_rows calls),
        omega (arith, h, hs),
      )
