-- ===== src/Stellar/Invocations/ProtoBatches.antt =====
-- What ConvertToProto of contract_invocation/convert.go puts into a batch.
use flowctl_sdk.Base.{
  ◌%◌, ◌^◌, ◌≡◌, refl, ap, ◌∙◌, List, [], ◌∷◌, Option, none, some, String, map, length, length-map,
}
use flowctl_sdk.Stellar.Panics.{ran, crashed, Checked}
use flowctl_sdk.Stellar.Invocations.Values.{Json}
use flowctl_sdk.Stellar.Invocations.Events.{ContractInvocationEvent}
use flowctl_sdk.Stellar.Invocations.Proto.{proto_event, proto_events, convert_to_proto}

-- The events behind the pointers that are not nil.
pub present_events : List (Option ContractInvocationEvent) → List ContractInvocationEvent
present_events [] = []
present_events (none ∷ ps) = present_events ps
present_events (some e ∷ ps) = e ∷ present_events ps

module _ (marshal : Json → Checked String) where
  proto_events_lem :
      (ps : List (Option ContractInvocationEvent))
      → proto_events marshal ps ≡ map (proto_event marshal) (present_events ps)
  unfolding proto_events present_events
  proto_events_lem [] = refl
  proto_events_lem (none ∷ ps) = proto_events_lem ps
  proto_events_lem (some e ∷ ps) = ap (λ xs. proto_event marshal e ∷ xs) (proto_events_lem ps)

  -- A batch whose first pointer is not nil is converted: it holds, in order, one message for each
  -- pointer that is not nil, counts them in 32 bits, and names the ledger of the first. With a nil
  -- pointer in front the conversion panics, though it passes over one anywhere else.
  pub convert_to_proto_batch :
      (e : ContractInvocationEvent) (ps : List (Option ContractInvocationEvent))
      → let events = present_events (some e ∷ ps) in
        (convert_to_proto marshal (some e ∷ ps)
          ≡ ran (record {
            invocations = map (proto_event marshal) events;
            ledger_sequence = e.ledger_sequence;
            invocation_count = length events % 2 ^ 32;
          }))
        × (convert_to_proto marshal (none ∷ some e ∷ ps) ≡ crashed)
  unfolding convert_to_proto
  convert_to_proto_batch e ps =
      let q = proto_events_lem (some e ∷ ps) in
      (
        λ i. ran (record {
          invocations = q i;
          ledger_sequence = e.ledger_sequence;
          invocation_count =
              (ap (λ xs. length xs % 2 ^ 32) q
                  ∙ ap (λ n. n % 2 ^ 32)
                      (length-map (present_events (some e ∷ ps)) (proto_event marshal)))
                i;
        }),
        refl,
      )
