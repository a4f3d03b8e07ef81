-- ===== src/Stellar/ContractEvents.antt =====
-- pkg/stellar/processors/contract_events/contract_events.go. A topic's map has the two keys of a
-- ScValue: it is that record.
pub mod Texts
pub mod Additions
pub mod Order
pub mod Storing
use flowctl_sdk.Base.{
  ℕ, ◌+◌, ◌%◌, ◌^◌, Bool, true, false, List, [], ◌∷◌, ◌++◌, Option, none, some, String, ◌<>◌,
  if◌then◌else◌, map,
}
use flowctl_sdk.Stellar.Panics.{Run, ran, crashed, ◌>>=◌, Checked, good, bad}
use flowctl_sdk.Stellar.Xdr.{ScVal}
use flowctl_sdk.Stellar.Xdr as X
use flowctl_sdk.Sink as S
use flowctl_sdk.Sink.{ScValue}
use Texts.{Library, sc_val_to_json, detect_event_type}

pub record ContractEvent : Type 0 where
  pub timestamp : ℕ
  pub ledger_sequence : ℕ
  pub transaction_hash : String
  pub transaction_index : ℕ
  pub contract_id : String
  pub event_type : String
  pub topics : List ScValue
  pub body : ScValue
  pub in_successful_tx : Bool
  pub event_index : ℕ
  pub operation_index : Option ℕ

-- What GetTransactionEvents returns: the events of each operation, and those of the transaction.
pub record TransactionEvents : Type 0 where
  pub operation_events : List (List X.ContractEvent)
  pub transaction_events : List X.ContractEvent

pub record Transaction : Type 0 where
  pub hash : String
  pub successful : Bool
  pub events : Checked TransactionEvents

-- Where an event stands: the arguments that processContractEvent copies.
pub record Place : Type 0 where
  pub ledger_sequence : ℕ
  pub close_time : ℕ
  pub hash : String
  pub transaction_index : ℕ
  pub successful : Bool

-- The events so far, and the index of the next.
pub record Found : Type 0 where
  pub events : List ContractEvent
  pub next : ℕ

abbrev pub first_json : List ScValue → Option String
first_json [] = none
first_json (t ∷ ts) = some t.json

module _ (lib : Library) where
  abbrev pub contract_text : Option X.Hash → String
  contract_text none = ""
  contract_text (some h) = lib.hex_string h

  unfoldable pub described : ScVal → Run ScValue
  described v = sc_val_to_json lib v >>= λ j.
      ran (record { xdr_base64 = lib.base64 (lib.marshal_binary v).0; json = j })

  unfoldable pub described_topics : List ScVal → Run (List ScValue)
  unfolding described
  described_topics [] = ran []
  described_topics (v ∷ vs) = do t ← described v; ts ← described_topics vs; ran (t ∷ ts)

  unfoldable pub build_event :
      Place → X.ContractEvent → ℕ → Option ℕ → List ScValue → ScValue → ContractEvent
  build_event p e i op topics body = record {
    timestamp = p.close_time;
    ledger_sequence = p.ledger_sequence;
    transaction_hash = p.hash;
    transaction_index = p.transaction_index;
    contract_id = contract_text e.emitter;
    event_type = detect_event_type lib.unmarshal (first_json topics);
    topics = topics;
    body = body;
    in_successful_tx = p.successful;
    event_index = i;
    operation_index = op;
  }

  unfoldable pub process_contract_event : Place → X.ContractEvent → ℕ → Option ℕ → Run ContractEvent
  unfolding described_topics build_event
  process_contract_event p e i op = do
    topics ← described_topics e.topics
    body ← described e.body_data
    ran (build_event p e i op topics body)

  -- One event of an operation (`some op`) or of the transaction.
  unfoldable pub add_event : Place → Option ℕ → X.ContractEvent → Found → Run Found
  unfolding process_contract_event
  add_event p op e f =
      if e.is_contract
      then (process_contract_event p e f.next op >>= λ c.
          ran (record { events = f.events ++ c ∷ []; next = (f.next + 1) % 2 ^ 32 }))
      else ran f

  unfoldable pub add_events : Place → Option ℕ → List X.ContractEvent → Found → Run Found
  unfolding add_event
  add_events p op [] f = ran f
  add_events p op (e ∷ es) f = do f' ← add_event p op e f; add_events p op es f'

  -- The loop over the operations, from operation `i`.
  unfoldable pub add_operations : Place → ℕ → List (List X.ContractEvent) → Found → Run Found
  unfolding add_events
  add_operations p i [] f = ran f
  add_operations p i (es ∷ ops) f = do
    f' ← add_events p (some (i % 2 ^ 32)) es f
    add_operations p (i + 1) ops f'

  unfoldable pub extract_events : Place → Checked TransactionEvents → Run (List ContractEvent)
  unfolding add_operations
  extract_events p (bad e) = ran []
  extract_events p (good t) =
      if p.successful
      then (add_operations p 0 t.operation_events (record { events = []; next = 0 }) >>= λ f.
          add_events p none t.transaction_events f >>= λ g. ran g.events)
      else ran []

  -- The loop over the reader's answers, from transaction `i`.
  unfoldable pub events_of_reads :
      ℕ
      → ℕ
      → ℕ
      → List ContractEvent
      → List (Checked Transaction)
      → Run (Checked (List ContractEvent))
  unfolding extract_events
  events_of_reads sequence close_time i found [] = ran (good found)
  events_of_reads sequence close_time i found (bad e ∷ rs) =
      ran (bad ("error reading transaction: " <> e))
  events_of_reads sequence close_time i found (good tx ∷ rs) =
      extract_events
        (record {
          ledger_sequence = sequence;
          close_time = close_time;
          hash = tx.hash;
          transaction_index = i;
          successful = tx.successful;
        })
        tx.events
      >>= λ es. events_of_reads sequence close_time ((i + 1) % 2 ^ 32) (found ++ es) rs

  -- `reader` is what the making of the reader returns.
  unfoldable pub events_from_ledger :
      ℕ → ℕ → Checked (List (Checked Transaction)) → Run (Checked (List ContractEvent))
  unfolding events_of_reads
  events_from_ledger sequence close_time (bad e) =
      ran (bad ("error creating transaction reader: " <> e))
  events_from_ledger sequence close_time (good rs) = events_of_reads sequence close_time 0 [] rs

-- The message of an event: that of the sink in Sink.antt.
unfoldable pub proto_event : ContractEvent → S.ContractEvent
proto_event e = record {
  meta = some (record {
    ledger_sequence = e.ledger_sequence;
    ledger_closed_at = e.timestamp;
    tx_hash = e.transaction_hash;
    tx_successful = e.in_successful_tx;
    tx_index = e.transaction_index;
  });
  contract_id = e.contract_id;
  event_type = e.event_type;
  topics = e.topics;
  body = e.body;
  in_successful_tx = e.in_successful_tx;
  event_index = e.event_index;
  operation_index = e.operation_index;
}

-- The slice holds pointers, and none is nil.
unfoldable pub convert_to_proto : List ContractEvent → List (Option S.ContractEvent)
unfolding proto_event
convert_to_proto es = map (λ e. some (proto_event e)) es
