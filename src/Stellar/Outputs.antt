-- ===== src/Stellar/Outputs.antt =====
-- What the handlers of pkg/stellar/stellar.go and pkg/stellar/transform.go put out.
use flowctl_sdk.Base.{
  ℕ, ◌≡◌, refl, sym, subst, inl, inr, Option, none, some, [], String, ◌<>◌, str_eq, if◌then◌else◌,
  or_else-none, arith, eq_iff, Bool-cases,
}
use flowctl_sdk.Base.Dict.{Dict, get, put, merge, IsDict, get-put, get-merge}
use flowctl_sdk.Errors.{Error, Result, good, bad, Result-cases}
use flowctl_sdk.Stellar.Handlers.{
  FlowEvent, RawLedger, Calls, output_event, handle_decoded, handle_ledger, handle_transform,
}

copied :
    (k version sequence : String) (m : Dict String)
    → IsDict m
    → get k (put "processor_version" version (put "ledger_sequence" sequence (merge [] m))) ≡ (
        if str_eq "processor_version" k
        then some version
        else if str_eq "ledger_sequence" k
        then some sequence
        else get k m)
unfolding get
copied k version sequence m known = ground (
  arith,
  get-put "processor_version" k version (put "ledger_sequence" sequence (merge [] m)),
  get-put "ledger_sequence" k sequence (merge [] m),
  get-merge k [] m known,
  or_else-none (get k m),
)

bad_not_good : {x : Error} {o : Option FlowEvent} → bad x ≡ good o → ⊥
bad_not_good h = ground arith

nil_not_event :
    {o : FlowEvent} → ◌≡◌ {A = Result (Option FlowEvent)} (good none) (good (some o)) → ⊥
nil_not_event h = ground arith

event-eq :
    {o p : FlowEvent} → ◌≡◌ {A = Result (Option FlowEvent)} (good (some o)) (good (some p)) → o ≡ p
event-eq h = cc

module _ {L M : Type 0} (decimal : ℕ → String) (calls : Calls L M) where
  -- An event that the ledger handler puts out comes of a ledger event that was unmarshalled, decoded
  -- and processed.
  pub record Comes (id output version : String) (e o : FlowEvent) : Type 0 where
    pub raw : RawLedger
    pub ledger : L
    pub message : M
    pub is_ledger : e.event_type ≡ "stellar.ledger.v1"
    pub unmarshalled : calls.unmarshal e.body ≡ good raw
    pub decoded : calls.decode raw.close_meta_xdr ≡ good ledger
    pub processed : calls.process_ledger ledger ≡ good (some message)
    pub marshalled : calls.marshal message ≡ good o.body
    pub is_output : o.event_type ≡ output
    pub source : o.source_component_id ≡ id
    pub cursor : o.cursor ≡ some raw.sequence
    pub name : o.id ≡ id <> "-" <> decimal raw.sequence
    pub metadata :
        (k : String)
        → get k o.metadata ≡ (
            if str_eq "processor_version" k
            then some version
            else if str_eq "ledger_sequence" k
            then some (decimal raw.sequence)
            else get k e.metadata)

  decoded_comes :
      (id output version : String) (e o : FlowEvent) (raw : RawLedger) (ledger : L)
      → handle_decoded decimal calls id output version e raw ledger ≡ good (some o)
      → (m : M) × (body : String) × (calls.process_ledger ledger ≡ good (some m))
        × (calls.marshal m ≡ good body)
        × (o ≡ output_event decimal calls id output version e raw body)
  unfolding handle_decoded
  decoded_comes id output version e o raw ledger h =
      elim (Result-cases (calls.process_ledger ledger)) [
        | inr (x, q) ↦ absurd (bad_not_good (rw (q, handle_decoded) at h))
        | inl (none, q) ↦ absurd (nil_not_event (rw (q, handle_decoded) at h))
        | inl (some m, q) ↦ elim (Result-cases (calls.marshal m)) [
          | inr (x, r) ↦ absurd (bad_not_good (rw (q, r, handle_decoded) at h))
          | inl (body, r) ↦ (m, body, q, r, sym (event-eq (rw (q, r, handle_decoded) at h)))
        ]
      ]

  made :
      (id output version : String) (e o : FlowEvent) (raw : RawLedger) (ledger : L)
      → e.event_type ≡ "stellar.ledger.v1"
      → calls.unmarshal e.body ≡ good raw
      → calls.decode raw.close_meta_xdr ≡ good ledger
      → handle_decoded decimal calls id output version e raw ledger ≡ good (some o)
      → IsDict e.metadata
      → Comes id output version e o
  unfolding output_event
  made id output version e o raw ledger t u d h known =
      let (m, body, p, q, k) = decoded_comes id output version e o raw ledger h in
      subst (λ o. Comes id output version e o) (sym k)
        (record {
          raw = raw;
          ledger = ledger;
          message = m;
          is_ledger = t;
          unmarshalled = u;
          decoded = d;
          processed = p;
          marshalled = q;
          is_output = refl;
          source = refl;
          cursor = refl;
          name = refl;
          metadata = λ k. copied k version (decimal raw.sequence) e.metadata known;
        })

  -- An event that the ledger handler puts out comes of a ledger event, which was unmarshalled, decoded,
  -- processed and marshalled again. It names the component, the output type and the ledger's
  -- sequence; its metadata are those of the event that came in, but for the ledger's sequence and the
  -- processor's version, which are written over.
  pub handle_ledger-Comes :
      (id output version : String) (e o : FlowEvent)
      → handle_ledger decimal calls id output version e ≡ good (some o)
      → IsDict e.metadata
      → Comes id output version e o
  unfolding handle_ledger
  handle_ledger-Comes id output version e o h known =
      elim (Bool-cases (str_eq e.event_type "stellar.ledger.v1")) [
        | inr q ↦ absurd (nil_not_event (rw (q, handle_ledger) at h))
        | inl q ↦ elim (Result-cases (calls.unmarshal e.body)) [
          | inr (x, u) ↦ absurd (bad_not_good (rw (q, u, handle_ledger) at h))
          | inl (raw, u) ↦ elim (Result-cases (calls.decode raw.close_meta_xdr)) [
            | inr (x, d) ↦ absurd (bad_not_good (rw (q, u, d, handle_ledger) at h))
            | inl (ledger, d) ↦
                made id output version e o raw ledger
                  (ground (arith, eq_iff e.event_type "stellar.ledger.v1")) u d
                  (rw (q, u, d, handle_ledger) at h) known
          ]
        ]
      ]

-- An event that the transform handler puts out comes of an event of its input type, and is what the
-- user's function returned for it, but for the output type and the component's ID.
pub handle_transform_output :
    (transform : FlowEvent → Result (Option FlowEvent)) (id input output : String) (e o : FlowEvent)
    → handle_transform transform id input output e ≡ good (some o)
    → (r : FlowEvent) × (e.event_type ≡ input)
      × (transform e ≡ good (some r))
      × (o ≡ record r { event_type = output; source_component_id = id })
unfolding handle_transform
handle_transform_output transform id input output e o h =
    elim (Bool-cases (str_eq e.event_type input)) [
      | inr q ↦ absurd (nil_not_event (rw (q, handle_transform) at h))
      | inl q ↦ elim (Result-cases (transform e)) [
        | inr (x, u) ↦ absurd (bad_not_good (rw (q, u, handle_transform) at h))
        | inl (none, u) ↦ absurd (nil_not_event (rw (q, u, handle_transform) at h))
        | inl (some r, u) ↦ (
          r,
          ground (arith, eq_iff e.event_type input),
          u,
          sym (event-eq (rw (q, u, handle_transform) at h)),
        )
      ]
    ]
