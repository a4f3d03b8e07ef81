-- ===== src/Examples/ContractEvents.antt =====
-- The theorems on pkg/stellar/processors/contract_events at concrete inputs.
use flowctl_sdk.Base.{◌≡◌, refl, true, false, [], ◌∷◌, ◌++◌, none, some, List, String, map}
use flowctl_sdk.Errors.{Result, returned, good}
use flowctl_sdk.Sink.{ScValue, Row, Db, Answers, insert_batch}
use flowctl_sdk.Stellar.Panics as R
use flowctl_sdk.Stellar.Panics.{ran}
use flowctl_sdk.Stellar.Xdr as X
use flowctl_sdk.Stellar.Xdr.{ScVal}
use flowctl_sdk.Stellar.ContractEvents.Texts.{Library, sc_val_to_json}
use flowctl_sdk.Stellar.ContractEvents.{
  ContractEvent, Transaction, convert_to_proto, events_from_ledger,
}
use flowctl_sdk.Stellar.ContractEvents.Additions.{spot_of}
use flowctl_sdk.Stellar.ContractEvents.Order.{ledger_spots, events_from_ledger_spots}
use flowctl_sdk.Stellar.ContractEvents.Storing.{
  row_spot, said_success, Hold, insert_batch-convert_to_proto,
}

abbrev lib : Library
lib = record {
  hex_string = λ h. "hash";
  address_text = λ a. R.good "CA";
  decimal = λ z. "0";
  marshal_binary = λ v. ([], true);
  base64 = λ bs. "";
  unmarshal = λ t. some (λ k. some "symbol");
}

-- An event of a contract, and one of the system.
abbrev of_contract : X.ContractEvent
of_contract = record {
  is_contract = true;
  emitter = some 1;
  topics = ScVal.symbol (some "transfer") ∷ [];
  body_data = ScVal.void;
}

abbrev of_system : X.ContractEvent
of_system = record of_contract { is_contract = false; emitter = none }

-- A failed transaction, and one with an operation of two events and an event of its own.
abbrev reads : List (R.Checked Transaction)
reads =
    R.good (record { hash = "a"; successful = false; events = R.bad "no events" })
    ∷ R.good (record {
      hash = "b";
      successful = true;
      events = R.good (record {
        operation_events = (of_system ∷ of_contract ∷ []) ∷ [];
        transaction_events = of_contract ∷ [];
      });
    })
    ∷ []

found : (es : List ContractEvent) × (events_from_ledger lib 7 100 (R.good reads) ≡ ran (R.good es))
unfolding events_from_ledger sc_val_to_json
found = (_, refl)

events_from_ledger_spots_example :
    (txs : List Transaction) × (reads ≡ map R.good txs)
    × (map spot_of found.0 ≡ ledger_spots lib 7 100 0 txs)
events_from_ledger_spots_example = events_from_ledger_spots lib 7 100 reads found.0 found.1

abbrev answers : Answers
answers = record { beginning = none; prepare = none; exec = λ i. none; commit = none }

abbrev empty : Db
empty = record { table = []; held = 0 }

abbrev topics_text : List ScValue → Result String
topics_text ts = good "[]"

abbrev data_text : ScValue → Result String
data_text v = good "{}"

insert_batch-convert_to_proto_example :
    let q = insert_batch topics_text data_text answers (convert_to_proto found.0) empty in
    (q.1 ≡ returned none)
    × (txs : List Transaction) × (rs : List Row) × (reads ≡ map R.good txs)
    × (q.0.table ≡ [] ++ rs)
    × (map row_spot rs ≡ ledger_spots lib 7 100 0 txs)
    × Hold topics_text data_text found.0 rs
    × (map said_success (convert_to_proto found.0)
        ≡ map (λ e. some (e.in_successful_tx, e.in_successful_tx)) found.0)
insert_batch-convert_to_proto_example =
    insert_batch-convert_to_proto topics_text data_text (λ ts. ("[]", refl)) (λ v. ("{}", refl)) lib
      7 100 reads found.0 answers empty found.1 (refl, refl, refl, λ i. refl)
