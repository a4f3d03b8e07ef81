-- ===== src/Examples/Sink.antt =====
-- The theorems on pkg/consumer/sinks/postgresql at concrete inputs.
use flowctl_sdk.Base.{
  ◌+◌, ◌≡◌, ◌↔◌, true, [], ◌∷◌, ◌++◌, none, some, String, if◌then◌else◌, ◌==◌, List, map,
}
use flowctl_sdk.Errors.{plain, returned, Result, good}
use flowctl_sdk.Sink.{ScValue, ContractEvent, Db, Answers, insert_batch}
use flowctl_sdk.Sink.Histories.{
  Call, call_succeeds, insert_batches, all_rows, all_taken, insert_batches_lem,
}
use flowctl_sdk.Sink.Batches.{rows_of, succeeds, kept, keeps, insert_batch_atomic}

abbrev event : ContractEvent
event = record {
  meta = some (record {
    ledger_sequence = 7;
    ledger_closed_at = 100;
    tx_hash = "abc";
    tx_successful = true;
    tx_index = 0;
  });
  contract_id = "CA";
  event_type = "transfer";
  topics = [];
  body = record { xdr_base64 = ""; json = "" };
  in_successful_tx = true;
  event_index = 0;
  operation_index = none;
}

abbrev empty : Db
empty = record { table = []; held = 0 }

abbrev marshal_topics : List ScValue → Result String
marshal_topics ts = good "[]"

abbrev marshal_data : ScValue → Result String
marshal_data v = good "{}"

-- The database takes the first row and refuses the second.
abbrev answers : Answers
answers = record {
  beginning = none;
  prepare = none;
  exec = λ i. if i == 1 then some (plain "duplicate key") else none;
  commit = none;
}

insert_batch_atomic_example :
    let batch = some event ∷ some event ∷ [] in
    let q = insert_batch marshal_topics marshal_data answers batch empty in
    let rows = rows_of marshal_topics marshal_data answers.exec 0 batch in
    ((q.1 ≡ returned none) ↔ (succeeds none none none rows ≡ true))
    × (q.0.table ≡ [] ++ kept none none none rows)
    × (q.0.held ≡ 0 + keeps none none rows)
insert_batch_atomic_example =
    insert_batch_atomic marshal_topics marshal_data answers (some event) (some event ∷ []) empty

-- A batch that fails at its second event, and then an empty one.
abbrev calls : List Call
calls = (answers, some event ∷ some event ∷ []) ∷ (answers, []) ∷ []

insert_batches_lem_example :
    let q = insert_batches marshal_topics marshal_data calls empty in
    (q.1 ≡ map (call_succeeds marshal_topics marshal_data) calls)
    × (q.0.table ≡ [] ++ all_rows marshal_topics marshal_data calls)
    × (q.0.held ≡ 0 + all_taken marshal_topics marshal_data calls)
insert_batches_lem_example = insert_batches_lem marshal_topics marshal_data calls empty
