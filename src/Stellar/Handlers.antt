-- ===== src/Stellar/Handlers.antt =====
-- The handlers that Run of pkg/stellar/stellar.go and RunTransform of pkg/stellar/transform.go give to
-- the processor. An event here has the fields of the generated protocol that they read or write.
use flowctl_sdk.Base.{ℕ, not, [], Option, none, some, String, ◌<>◌, str_eq, if◌then◌else◌}
use flowctl_sdk.Base.Dict.{Dict, put, merge}
use flowctl_sdk.Errors.{wrapped, Result, good, bad}

-- `body` is the payload, `cursor` the ledger sequence of the Stellar cursor, if there is one.
pub record FlowEvent : Type 0 where
  pub id : String
  pub event_type : String
  pub body : String
  pub metadata : Dict String
  pub source_component_id : String
  pub content_type : String
  pub cursor : Option ℕ

pub record RawLedger : Type 0 where
  pub sequence : ℕ
  pub close_meta_xdr : String

-- What the handler calls: proto.Unmarshal, xdr.SafeUnmarshal into a ledger `L`, the user's function
-- for the configured network, where `none` is nil data of a message type `M`, and proto.Marshal.
pub record Calls (L M : Type 0) : Type 0 where
  pub unmarshal : String → Result RawLedger
  pub decode : String → Result L
  pub process_ledger : L → Result (Option M)
  pub marshal : M → Result String

module _ {L M : Type 0} (decimal : ℕ → String) (calls : Calls L M) where
  unfoldable pub output_event :
      String → String → String → FlowEvent → RawLedger → String → FlowEvent
  output_event id output version e raw body = record {
    id = id <> "-" <> decimal raw.sequence;
    event_type = output;
    body = body;
    metadata =
        put "processor_version" version
          (put "ledger_sequence" (decimal raw.sequence) (merge [] e.metadata));
    source_component_id = id;
    content_type = "application/protobuf";
    cursor = some raw.sequence;
  }

  -- From the decoded ledger on.
  unfoldable pub handle_decoded :
      String → String → String → FlowEvent → RawLedger → L → Result (Option FlowEvent)
  handle_decoded id output version e raw ledger = elim (calls.process_ledger ledger) [
    | bad x ↦ bad (wrapped "failed to process ledger" x)
    | good none ↦ good none
    | good (some m) ↦ elim (calls.marshal m) [
      | bad x ↦ bad (wrapped "failed to marshal processed data" x)
      | good body ↦ good (some (output_event id output version e raw body))
    ]
  ]

  unfoldable pub handle_ledger : String → String → String → FlowEvent → Result (Option FlowEvent)
  handle_ledger id output version e =
      if not (str_eq e.event_type "stellar.ledger.v1")
      then good none
      else elim (calls.unmarshal e.body) [
        | bad x ↦ bad (wrapped "failed to unmarshal ledger" x)
        | good raw ↦ elim (calls.decode raw.close_meta_xdr) [
          | bad x ↦ bad (wrapped "failed to unmarshal XDR" x)
          | good ledger ↦ handle_decoded id output version e raw ledger
        ]
      ]

-- `transform` is the user's function.
unfoldable pub handle_transform :
    (FlowEvent → Result (Option FlowEvent))
    → String
    → String
    → String
    → FlowEvent
    → Result (Option FlowEvent)
handle_transform transform id input output e =
    if not (str_eq e.event_type input) then good none else elim (transform e) [
      | bad x ↦ bad (wrapped "transform failed" x)
      | good none ↦ good none
      | good (some r) ↦ good (some (record r { event_type = output; source_component_id = id }))
    ]
