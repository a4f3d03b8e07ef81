-- ===== src/Consumer/Stream/Turns.antt =====
-- One turn of the loop of pkg/consumer/service.go's Consume: what can have happened in it.
use flowctl_sdk.Base.{
  ◌≡◌, refl, ◌∙◌, Bool, true, false, ◌||◌, Bool-cases, Option, none, some, ◌⊎◌, inl, inr, inc64,
}
use flowctl_sdk.Errors.{
  Error, status, Code, is_error, is_eof, context_canceled, context_deadline_exceeded, Result, good,
  bad,
}
use flowctl_sdk.Protocol.{Event}
use flowctl_sdk.Consumer.{Consumer}
use flowctl_sdk.Consumer.Stream.{
  Look, free, ended, stopped, Round, Tally, error, Turn, goes_on, ends, is_filtered, summarise,
  count_consumed, count_failed, looking, close_stream, finish_event, handle_event, take_event,
  round_step,
}

-- The errors that Consume makes: the conversion of another error, or a status with a fixed text.
pub data Public (from_context_error : Error → Error) (x : Error) : Type 0 where
  converted : (e : Error) → x ≡ from_context_error e → Public from_context_error x
  has_stopped : x ≡ status Code.canceled "consumer stopped" → Public from_context_error x
  not_received : x ≡ status Code.unavailable "consumer receive failed" → Public from_context_error x
  nil_event : x ≡ status Code.invalid_argument "nil event" → Public from_context_error x
  no_handler :
      x ≡ status Code.failed_precondition "consumer handler not configured"
      → Public from_context_error x
  no_match :
      x ≡ status Code.failed_precondition "no events matched consumer input types"
      → Public from_context_error x

-- No look up to the receive, or up to the end of the callback, finds anything.
abbrev pub IsReceived : Round → Result (Option Event) → Type 0
IsReceived r x = (r.head ≡ free) × (r.receive ≡ free) × (r.after_receive ≡ free) × (r.received ≡ x)

abbrev pub IsHandled : Round → Event → Option Error → Type 0
IsHandled r e y =
    IsReceived r (good (some e))
    × (r.handling ≡ free)
    × (r.after_handling ≡ free)
    × (r.handle e ≡ y)

abbrev pub is_cancellation : Error → Bool
is_cancellation e = is_error e context_canceled || is_error e context_deadline_exceeded

abbrev pub with_filtered : Tally → Tally
with_filtered l = record l { filtered = inc64 l.filtered }

abbrev pub with_consumed : Tally → Tally
with_consumed l = record l { consumed = inc64 l.consumed }

abbrev pub with_failed : Tally → Tally
with_failed l = record l { failed = inc64 l.failed; summaries = summarise l.summaries }

module _ (fce : Error → Error) where
  pub data Happens (r : Round) (c : Consumer) (l : Tally) (t : Turn) : Type 0 where
    refuses : (x : Error) → Public fce x → t ≡ ends (error x) → Happens r c l t
    closes :
        (x : Error)
        → IsReceived r (bad x)
        → is_eof x ≡ true
        → t ≡ ends (close_stream r l)
        → Happens r c l t
    skips :
        (e : Event)
        → IsReceived r (good (some e))
        → is_filtered e c.input_type_set ≡ true
        → t ≡ goes_on c (with_filtered l)
        → Happens r c l t
    consumes :
        (e : Event)
        → IsHandled r e none
        → is_filtered e c.input_type_set ≡ false
        → c.has_handler ≡ true
        → t ≡ goes_on (count_consumed c) (with_consumed l)
        → Happens r c l t
    fails :
        (e : Event) (y : Error)
        → IsHandled r e (some y)
        → is_filtered e c.input_type_set ≡ false
        → c.has_handler ≡ true
        → is_cancellation y ≡ false
        → t ≡ goes_on (count_failed c) (with_failed l)
        → Happens r c l t

  looking-cases :
      (x : Look) (k t : Turn)
      → t ≡ looking fce x k
      → ((x ≡ free) × (t ≡ k)) ⊎ ((e : Error) × Public fce e × (t ≡ ends (error e)))
  unfolding looking
  looking-cases free k t q = inl (refl, q)
  looking-cases (ended e) k t q = inr (fce e, converted e refl, q)
  looking-cases stopped k t q = inr (_, has_stopped refl, q)

  module _ (r : Round) (c : Consumer) (l : Tally) (t : Turn) where
    finished-Happens :
        (e : Event) (y : Option Error)
        → IsHandled r e y
        → is_filtered e c.input_type_set ≡ false
        → c.has_handler ≡ true
        → t ≡ finish_event fce y c l
        → Happens r c l t
    unfolding finish_event
    finished-Happens e none v n h q = consumes e v n h q
    finished-Happens e (some y) v n h q = elim (Bool-cases (is_cancellation y)) [
      | inl k ↦ refuses (fce y) (converted y refl) (q ∙ rw k refl)
      | inr k ↦ fails e y v n h k (q ∙ rw k refl)
    ]

    called-Happens :
        (e : Event)
        → IsReceived r (good (some e))
        → is_filtered e c.input_type_set ≡ false
        → c.has_handler ≡ true
        → t
          ≡ looking fce r.handling
              (looking fce r.after_handling (finish_event fce (r.handle e) c l))
        → Happens r c l t
    called-Happens e v n h q = elim (looking-cases r.handling _ t q) [
      | inr (x, p, w) ↦ refuses x p w
      | inl (a, q') ↦ elim (looking-cases r.after_handling _ t q') [
        | inr (x, p, w) ↦ refuses x p w
        | inl (b, q'') ↦ finished-Happens e (r.handle e) (v, a, b, refl) n h q''
      ]
    ]

    taken-Happens :
        (x : Result (Option Event)) → IsReceived r x → t ≡ take_event fce r x c l → Happens r c l t
    unfolding take_event handle_event
    taken-Happens (bad x) v q = elim (Bool-cases (is_eof x)) [
      | inl k ↦ closes x v k (q ∙ rw k refl)
      | inr k ↦ refuses _ (not_received refl) (q ∙ rw k refl)
    ]
    taken-Happens (good none) v q = refuses _ (nil_event refl) q
    taken-Happens (good (some e)) v q = elim (Bool-cases (is_filtered e c.input_type_set)) [
      | inl k ↦ skips e v k (q ∙ rw k refl)
      | inr k ↦ elim (Bool-cases c.has_handler) [
        | inl h ↦ called-Happens e v k h (q ∙ rw (k, h) refl)
        | inr h ↦ refuses _ (no_handler refl) (q ∙ rw (k, h) refl)
      ]
    ]

    pub round-Happens : t ≡ round_step fce r c l → Happens r c l t
    unfolding round_step
    round-Happens q = elim (looking-cases r.head _ t q) [
      | inr (x, p, w) ↦ refuses x p w
      | inl (a, q₁) ↦ elim (looking-cases r.receive _ t q₁) [
        | inr (x, p, w) ↦ refuses x p w
        | inl (b, q₂) ↦ elim (looking-cases r.after_receive _ t q₂) [
          | inr (x, p, w) ↦ refuses x p w
          | inl (d, q₃) ↦ taken-Happens r.received (a, b, d, refl) q₃
        ]
      ]
    ]
