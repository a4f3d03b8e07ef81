-- ===== src/Stellar/Invocations/Diagnostics.antt =====
-- When extractDiagnosticEvents of contract_invocation/contract_invocation_processor.go panics.
use flowctl_sdk.Base.{
  ◌≡◌, ◌↔◌, refl, sym, ap, ◌∙◌, Bool, true, false, ◌||◌, List, [], ◌∷◌, map, Option, none, some,
  String, arith, Option-cases, inl, inr,
}
use flowctl_sdk.Stellar.Panics.{ran, crashed, ◌>>=◌, good, >>=-eq-ran, ran-eq, crashed_not_ran}
use flowctl_sdk.Stellar.Xdr.{Hash, ScVal, ContractEvent}
use flowctl_sdk.Stellar.Invocations.Values.{Library, convert, json_of}
use flowctl_sdk.Stellar.Invocations.Events.{DiagnosticEvent}
use flowctl_sdk.Stellar.Invocations.Conversions.{
  absent, panics, panics-two, crashed_of, panics-convert,
}
use flowctl_sdk.Stellar.Invocations.Changes.{
  decode_topics, diagnostic_event, diagnostic_events_of, append_some, extract_diagnostic_events,
}

pub any_absent : List ScVal → Bool
any_absent [] = false
any_absent (v ∷ vs) = absent v || any_absent vs

-- No contract's ID, or a vector or a map without content.
pub lacks : ContractEvent → Bool
lacks e = elim e.emitter [ none ↦ true | some h ↦ any_absent e.topics || absent e.body_data ]

pub any_lacks : List ContractEvent → Bool
any_lacks [] = false
any_lacks (e ∷ es) = lacks e || any_lacks es

pub record Shown : Type 0 where
  pub contract_id : String
  pub topics : List ScVal
  pub body : ScVal

abbrev pub shown : DiagnosticEvent → Shown
shown d = record { contract_id = d.contract_id; topics = d.topics; body = d.body }

-- No meta counts as no events.
abbrev pub or_none : Option (List ContractEvent) → List ContractEvent
or_none none = []
or_none (some es) = es

module _ (lib : Library)
    (encodes : (h : Hash) → (s : String) × (lib.encode_contract h ≡ good s)) where
  topics_panic : (vs : List ScVal) → panics (decode_topics lib vs) ≡ any_absent vs
  unfolding decode_topics any_absent
  topics_panic [] = refl
  topics_panic (v ∷ vs) =
      panics-two (convert lib v) (decode_topics lib vs) (λ c js. json_of c ∷ js)
      ∙ ground (arith, panics-convert lib v, topics_panic vs)

  event_panics : (e : ContractEvent) → panics (diagnostic_event lib e) ≡ lacks e
  unfolding diagnostic_event lacks
  event_panics e = elim (Option-cases e.emitter) [
    | inl q ↦ rw q refl
    | inr (h, q) ↦
        let (s, k) = encodes h in
        rw (q, k, diagnostic_event, lacks, panics)
          (panics-two (decode_topics lib e.topics) (convert lib e.body_data) (λ js b. some (record {
            contract_id = s;
            topics = e.topics;
            topics_decoded = js;
            body = e.body_data;
            body_decoded = json_of b;
          }))
            ∙ ground (arith, topics_panic e.topics, panics-convert lib e.body_data))
  ]

  events_panic : (es : List ContractEvent) → panics (diagnostic_events_of lib es) ≡ any_lacks es
  unfolding diagnostic_events_of any_lacks
  events_panic [] = refl
  events_panic (e ∷ es) =
      panics-two (diagnostic_event lib e) (diagnostic_events_of lib es) (λ d ds. append_some d ds)
      ∙ ground (arith, event_panics e, events_panic es)

  events_of_option :
      (o : Option (List ContractEvent))
      → panics (extract_diagnostic_events lib o) ≡ any_lacks (or_none o)
  unfolding extract_diagnostic_events any_lacks
  events_of_option none = refl
  events_of_option (some es) = events_panic es

  -- The diagnostic event of an event, but for the decoded values.
  abbrev pub shown_event : ContractEvent → Shown
  shown_event e = record {
    contract_id = elim e.emitter [ none ↦ "" | some h ↦ (encodes h).0 ];
    topics = e.topics;
    body = e.body_data;
  }

  event_shown :
      (e : ContractEvent) (o : Option DiagnosticEvent)
      → diagnostic_event lib e ≡ ran o
      → (d : DiagnosticEvent) × (o ≡ some d) × (shown d ≡ shown_event e)
  unfolding diagnostic_event
  event_shown e o h = elim (Option-cases e.emitter) [
    | inl q ↦ absurd (crashed_not_ran (rw (q, diagnostic_event) at h))
    | inr (x, q) ↦
        let (s, k) = encodes x in
        let (js, a, h') =
          >>=-eq-ran (decode_topics lib e.topics) _ (rw (q, k, diagnostic_event) at h) in
        let (b, a', h'') = >>=-eq-ran (convert lib e.body_data) _ h' in
        (_, sym (ran-eq h''), rw q refl)
  ]

  events_shown :
      (es : List ContractEvent) (ds : List DiagnosticEvent)
      → diagnostic_events_of lib es ≡ ran ds
      → map shown ds ≡ map shown_event es
  unfolding diagnostic_events_of
  events_shown [] ds h = ap (map shown) (sym (ran-eq h))
  events_shown (e ∷ es) ds h =
      let (o, p, q) =
        >>=-eq-ran (diagnostic_event lib e)
          (λ o. diagnostic_events_of lib es >>= λ us. ran (append_some o us)) h in
      let (us, p', q') =
        >>=-eq-ran (diagnostic_events_of lib es) (λ us. ran (append_some o us)) q in
      let (d, g, k) = event_shown e o p in
      sym (ap (map shown) (ran-eq q'))
      ∙ ap (λ o. map shown (append_some o us)) g
      ∙ (λ i. k i ∷ events_shown es us p' i)

  option_shown :
      (o : Option (List ContractEvent)) (ds : List DiagnosticEvent)
      → extract_diagnostic_events lib o ≡ ran ds
      → map shown ds ≡ map shown_event (or_none o)
  unfolding extract_diagnostic_events
  option_shown none ds h = ap (map shown) (sym (ran-eq h))
  option_shown (some es) ds h = events_shown es ds h

  -- Where strkey encodes every contract's ID: extractDiagnosticEvents panics exactly when the Soroban
  -- meta is there and one of its events has no contract's ID, or a vector or a map without content in
  -- its topics or its data. Where it does not panic, it gives one diagnostic event for each event, in
  -- order, under the text of its contract's ID, with its topics and its data.
  pub diagnostic_events_panic :
      (o : Option (List ContractEvent))
      → ((extract_diagnostic_events lib o ≡ crashed) ↔ (any_lacks (or_none o) ≡ true))
        × ((ds : List DiagnosticEvent)
            → extract_diagnostic_events lib o ≡ ran ds
            → map shown ds ≡ map shown_event (or_none o))
  diagnostic_events_panic o = (
    (
      λ h. sym (events_of_option o) ∙ ap panics h,
      λ h. crashed_of (extract_diagnostic_events lib o) (events_of_option o ∙ h),
    ),
    option_shown o,
  )
