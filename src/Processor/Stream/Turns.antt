-- ===== src/Processor/Stream/Turns.antt =====
-- One turn of the loop of pkg/processor/processor.go's Process: what can have happened in it.
use flowctl_sdk.Base.{
  ◌≡◌, refl, ◌∙◌, true, false, Bool-cases, List, [], ◌∷◌, Option, none, some, Option-cases, inl,
  inr,
}
use flowctl_sdk.Errors.{
  is_eof, Error, sentinel, processor_stopped, handler_not_found, Result, good, bad,
}
use flowctl_sdk.Flowctl.Metrics.{Floats, increment_error_count, increment_success_count}
use flowctl_sdk.Protocol.{Event}
use flowctl_sdk.Processor.{Processor}
use flowctl_sdk.Processor.Handler.{Handler, get_handlers_for_type}
use flowctl_sdk.Processor.Stream.{
  Pick, done, stopped, received, Round, Turn, goes_on, ends, handler_error, record_handled,
  finish_event, next_turn, process_with, process_and_send, pick_step,
}

-- An error that comes from outside of the processor.
pub data Outside (q : Pick) (x : Error) : Type 0 where
  by_context : q ≡ done x → Outside q x
  by_stop : q ≡ stopped → x ≡ sentinel processor_stopped → Outside q x
  by_client : q ≡ received (bad x) → is_eof x ≡ false → Outside q x

module _ (fl : Floats) where
  open fl use {F}

  abbrev pub with_error : Round → Processor F → Processor F
  with_error r p = record p { metrics = increment_error_count r.now p.metrics }

  abbrev pub with_success : Round → Processor F → Processor F
  with_success r p = record p { metrics = increment_success_count r.now p.metrics }

  -- The handler that gets the event of a round.
  abbrev pub Serving : Round → Processor F → Event → Handler → Type 0
  Serving r p e h =
      (r.pick ≡ received (good e))
      × (hs : List Handler) × (get_handlers_for_type e.event_type p.registry ≡ h ∷ hs)

  pub data Happens (r : Round) (p : Processor F) (t : Turn F) : Type 0 where
    quits : (x : Error) → Outside r.pick x → t ≡ ends p (some x) → Happens r p t
    closes :
        (x : Error) → r.pick ≡ received (bad x) → is_eof x ≡ true → t ≡ ends p none → Happens r p t
    lacks :
        (e : Event)
        → r.pick ≡ received (good e)
        → get_handlers_for_type e.event_type p.registry ≡ []
        → t ≡ ends (with_error r p) (some (sentinel handler_not_found))
        → Happens r p t
    fails :
        (e : Event) (h : Handler) (x : Error)
        → Serving r p e h
        → r.handle h e ≡ bad x
        → t ≡ ends (with_error r (record_handled fl r p)) (some (handler_error r.context x))
        → Happens r p t
    filters :
        (e : Event) (h : Handler)
        → Serving r p e h
        → r.handle h e ≡ good none
        → t ≡ goes_on none (record_handled fl r p)
        → Happens r p t
    forwards :
        (e : Event) (h : Handler) (o : Event)
        → Serving r p e h
        → r.handle h e ≡ good (some o)
        → r.send ≡ none
        → t ≡ goes_on (some o) (with_success r (record_handled fl r p))
        → Happens r p t
    breaks :
        (e : Event) (h : Handler) (o : Event) (x : Error)
        → Serving r p e h
        → r.handle h e ≡ good (some o)
        → r.send ≡ some x
        → t ≡ ends (with_success r (record_handled fl r p)) (some x)
        → Happens r p t

  served-Happens :
      (r : Round) (p : Processor F) (t : Turn F) (e : Event) (h : Handler)
      (a : Result (Option Event))
      → Serving r p e h
      → r.handle h e ≡ a
      → t ≡ next_turn (finish_event fl r a (record_handled fl r p))
      → Happens r p t
  unfolding next_turn finish_event
  served-Happens r p t e h (bad x) v k q = fails e h x v k q
  served-Happens r p t e h (good none) v k q = filters e h v k q
  served-Happens r p t e h (good (some o)) v k q = elim (Option-cases r.send) [
    | inl s ↦ forwards e h o v k s (q ∙ rw s refl)
    | inr (x, s) ↦ breaks e h o x v k s (q ∙ rw s refl)
  ]

  handled-Happens :
      (r : Round) (p : Processor F) (t : Turn F) (e : Event) (hs : List Handler)
      → r.pick ≡ received (good e)
      → get_handlers_for_type e.event_type p.registry ≡ hs
      → t ≡ next_turn (process_with fl r e hs p)
      → Happens r p t
  unfolding next_turn process_with
  handled-Happens r p t e [] v k q = lacks e v k q
  handled-Happens r p t e (h ∷ hs) v k q = served-Happens r p t e h (r.handle h e) (v, hs, k) refl q

  pub turn-Happens :
      (r : Round) (p : Processor F) (t : Turn F) (q : Pick)
      → r.pick ≡ q
      → t ≡ pick_step fl r q p
      → Happens r p t
  unfolding pick_step process_and_send
  turn-Happens r p t (done x) v q = quits x (by_context v) q
  turn-Happens r p t stopped v q = quits (sentinel processor_stopped) (by_stop v refl) q
  turn-Happens r p t (received (bad x)) v q = elim (Bool-cases (is_eof x)) [
    | inl k ↦ closes x v k (q ∙ rw k refl)
    | inr k ↦ quits x (by_client v k) (q ∙ rw k refl)
  ]
  turn-Happens r p t (received (good e)) v q = handled-Happens r p t e _ v refl q
