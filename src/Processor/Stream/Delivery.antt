-- ===== src/Processor/Stream/Delivery.antt =====
-- When a stream of pkg/processor/processor.go ends well, and what it has then sent.
use flowctl_sdk.Base.{
  ◌≡◌, refl, sym, subst, ◌∙◌, true, List, [], ◌∷◌, ◌++◌, append-nil, append_assoc, none, some, ◌↔◌,
  arith,
}
use flowctl_sdk.Errors.{is_eof, Error, good, bad}
use flowctl_sdk.Flowctl.Metrics.{Floats}
use flowctl_sdk.Protocol.{Event}
use flowctl_sdk.Processor.{Processor}
use flowctl_sdk.Processor.Handler.{Handler, Registry, get_handlers_for_type}
use flowctl_sdk.Processor.Stream.{
  received, Round, goes_on, emit, next_turn, record_handled, finish_event, process_with,
  process_and_send, pick_step, process_loop, process,
}
use flowctl_sdk.Processor.Stream.Turns.{
  with_success, quits, closes, lacks, fails, filters, forwards, breaks, turn-Happens,
}

-- The first handler of the event's type, which is the one that is called.
abbrev pub Serving : Registry → Round → Event → Handler → Type 0
Serving reg r e h =
    (r.pick ≡ received (good e))
    × (hs : List Handler) × (get_handlers_for_type e.event_type reg ≡ h ∷ hs)

-- A script whose stream ends well, with the events that its handlers put out.
pub data Serves (reg : Registry) : List Round → List Event → Type 0 where
  over :
      (r : Round) (rs : List Round) (x : Error)
      → r.pick ≡ received (bad x)
      → is_eof x ≡ true
      → Serves reg (r ∷ rs) []
  filtered :
      (r : Round) {rs : List Round} {os : List Event} (e : Event) (h : Handler)
      → Serving reg r e h
      → r.handle h e ≡ good none
      → Serves reg rs os
      → Serves reg (r ∷ rs) os
  forwarded :
      (r : Round) {rs : List Round} {os : List Event} (e : Event) (h : Handler) (o : Event)
      → Serving reg r e h
      → r.handle h e ≡ good (some o)
      → r.send ≡ none
      → Serves reg rs os
      → Serves reg (r ∷ rs) (o ∷ os)

module _ (fl : Floats) where
  open fl use {F}

  loop-Serves :
      (rs : List Round) (sent : List Event) (p : Processor F)
      → (process_loop fl rs sent p).answer ≡ some none
      → (os : List Event) × Serves p.registry rs os
        × ((process_loop fl rs sent p).sent ≡ sent ++ os)
  unfolding process_loop emit record_handled
  loop-Serves [] sent p k = absurd (ground arith)
  loop-Serves (r ∷ rs) sent p k = elim (turn-Happens fl r p _ r.pick refl refl) [
    | quits x o q ↦ absurd (ground arith)
    | closes x v y q ↦ ([], over r rs x v y, rw (q, process_loop, append-nil) refl)
    | lacks e v y q ↦ absurd (ground arith)
    | fails e h x v y q ↦ absurd (ground arith)
    | filters e h v y q ↦
        let (os, d, l) =
          loop-Serves rs (sent ++ []) (record_handled fl r p) (rw (q, process_loop) at k) in
        (os, filtered r e h v y d, rw (q, process_loop) (l ∙ append_assoc sent [] os))
    | forwards e h o v y s q ↦
        let (os, d, l) =
          loop-Serves rs (sent ++ o ∷ []) (with_success fl r (record_handled fl r p))
            (rw (q, process_loop) at k) in
        (
          o ∷ os,
          forwarded r e h o v y s d,
          rw (q, process_loop) (l ∙ append_assoc sent (o ∷ []) os),
        )
    | breaks e h o x v y s q ↦ absurd (ground arith)
  ]

  filters_step :
      (r : Round) (p : Processor F) (e : Event) (h : Handler)
      → Serving p.registry r e h
      → r.handle h e ≡ good none
      → pick_step fl r r.pick p ≡ goes_on none (record_handled fl r p)
  unfolding pick_step process_and_send process_with finish_event next_turn
  filters_step r p e h (v, hs, w) y = simp (v, w, y)

  forwards_step :
      (r : Round) (p : Processor F) (e : Event) (h : Handler) (o : Event)
      → Serving p.registry r e h
      → r.handle h e ≡ good (some o)
      → r.send ≡ none
      → pick_step fl r r.pick p ≡ goes_on (some o) (with_success fl r (record_handled fl r p))
  unfolding pick_step process_and_send process_with finish_event next_turn
  forwards_step r p e h o (v, hs, w) y s = simp (v, w, y) (rw s refl)

  Serves-ok :
      {reg : Registry} {rs : List Round} {os : List Event}
      → Serves reg rs os
      → (sent : List Event) (p : Processor F) → p.registry ≡ reg
      → ((process_loop fl rs sent p).answer ≡ some none)
        × ((process_loop fl rs sent p).sent ≡ sent ++ os)
  unfolding process_loop pick_step emit record_handled
  Serves-ok (over r rs x v y) sent p g = rw (v, y, append-nil) (refl, refl)
  Serves-ok (filtered r {rs} {os} e h v y d) sent p g =
      let (a, l) = Serves-ok d (sent ++ []) (record_handled fl r p) g in
      rw (filters_step r p e h (subst (λ z. Serving z r e h) (sym g) v) y, process_loop)
        (a, l ∙ append_assoc sent [] os)
  Serves-ok (forwarded r {rs} {os} e h o v y s d) sent p g =
      let (a, l) = Serves-ok d (sent ++ o ∷ []) (with_success fl r (record_handled fl r p)) g in
      rw (forwards_step r p e h o (subst (λ z. Serving z r e h) (sym g) v) y s, process_loop)
        (a, l ∙ append_assoc sent (o ∷ []) os)

  -- Process ends without an error exactly on the scripts in which every event received until the end
  -- of the input had a handler for its type, the first such handler reported no error, and what it
  -- put out was sent. The client then has those outputs, in order, and nothing for filtered events.
  pub process_ok_iff :
      (rs : List Round) (p : Processor F)
      → let t = process fl rs p in (t.answer ≡ some none) ↔ Serves p.registry rs t.sent
  unfolding process
  process_ok_iff rs p =
      (λ k. let (os, d, l) = loop-Serves rs [] p k in rw l d, λ d. (Serves-ok d [] p refl).0)
