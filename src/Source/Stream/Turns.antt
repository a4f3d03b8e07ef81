-- ===== src/Source/Stream/Turns.antt =====
-- One turn of the loop of pkg/source/source.go's streamWithResult: when it goes on, and how it ends.
use flowctl_sdk.Base.{
  Bool-cases, Option-cases, ℕ, ◌≡◌, refl, Bool, true, false, Option, none, some, ◌⊎◌, inl, inr,
  arith,
}
use flowctl_sdk.Errors.{Error, is_error, context_canceled, classified, downstream_unavailable}
use flowctl_sdk.Source.{Source}
use flowctl_sdk.Source.Status.{stream_status}
use flowctl_sdk.Source.Stream.{
  ContextError, context_error, Terminal, absent, closed_result, value, Pick, done, event, closed,
  Round, Turn, sends, ends, fail_stream, fails, count_sent, ends_by_context, terminal_step,
  pick_step, round_step,
}

module _ {F : Type 0} (bounded : Bool) where
  terminal_step_ok :
      (now : ℕ) (t : Terminal) (c : Option ContextError) (s s' : Source F)
      → terminal_step bounded now t c s ≡ ends s' none
      → (t ≡ value none false) × (bounded ≡ true)
  unfolding terminal_step stream_status
  terminal_step_ok now absent c s s' h = ground arith
  terminal_step_ok now closed_result c s s' h = ground arith
  terminal_step_ok now (value e true) c s s' h = ground arith
  terminal_step_ok now (value (some e) false) none s s' h = ground arith
  terminal_step_ok now (value (some e) false) (some c) s s' h = ground arith
  terminal_step_ok now (value none false) c s s' h = ground arith

  pick_step_ok :
      (now : ℕ) (p : Pick) (s s' : Source F)
      → pick_step bounded now p s ≡ ends s' none
      → (c : Option ContextError) × (p ≡ closed none (value none false) c) × (bounded ≡ true)
  unfolding pick_step stream_status
  pick_step_ok now (done c) s s' h = absurd (ground arith)
  pick_step_ok now (closed (some c) t c') s s' h = absurd (ground arith)
  pick_step_ok now (closed none t c') s s' h =
      let (e, b) = terminal_step_ok now t c' s s' h in (c', rw e, b)
  pick_step_ok now (event e (some c) x) s s' h = absurd (ground arith)
  pick_step_ok now (event none none x) s s' h = absurd (ground arith)
  pick_step_ok now (event (some e) none none) s s' h = absurd (ground arith)
  pick_step_ok now (event (some e) none (some x)) s s' h = absurd (ground arith)

  pub round_step_ok :
      (r : Round) (s s' : Source F)
      → round_step bounded r s ≡ ends s' none
      → (r.context ≡ none)
        × (c : Option ContextError) × (r.pick ≡ closed none (value none false) c)
        × (bounded ≡ true)
  unfolding round_step stream_status
  round_step_ok r s s' h = go r.context refl
    where
      go :
          (o : Option ContextError)
          → r.context ≡ o
          → (r.context ≡ none)
            × (c : Option ContextError) × (r.pick ≡ closed none (value none false) c)
            × (bounded ≡ true)
      go (some c) e = absurd (ground arith)
      go none e = let (c, p, b) = pick_step_ok r.now r.pick s s' (ground arith) in (e, c, p, b)

  pub round_step-sends :
      (r : Round) (s s' : Source F) (e : ℕ)
      → round_step bounded r s ≡ sends e s'
      → (r.context ≡ none) × (r.pick ≡ event (some e) none none) × (s' ≡ count_sent r.now s)
  unfolding round_step
  round_step-sends r s s' e h = ground arith

module _ {F : Type 0} where
  pub Turn-cases :
      (t : Turn F)
      → ((e : ℕ) × (s : Source F) × (t ≡ sends e s))
        ⊎ ((s : Source F) × (a : Option Error) × (t ≡ ends s a))
  Turn-cases (sends e s) = inl (e, s, refl)
  Turn-cases (ends s a) = inr (s, a, refl)

-- How a turn ends the stream: at the end of the events, by an error that is not counted, or through
-- failStream.
pub data Ending {F : Type 0} (now : ℕ) (s s' : Source F) (a : Option Error) : Type 0 where
  finished : s' ≡ s → a ≡ none → Ending now s s' a
  refused : (e : Error) → s' ≡ s → a ≡ stream_status (some e) → Ending now s s' a
  failed :
      (e : Error) → s' ≡ (fail_stream now e s).0 → a ≡ (fail_stream now e s).1 → Ending now s s' a

module _ {F : Type 0} (bounded : Bool) (now : ℕ) (s s' : Source F) (a : Option Error) where
  fails-Ending : (e : Error) → fails now e s ≡ ends s' a → Ending now s s' a
  unfolding fails
  fails-Ending e h = failed e (ground arith) (ground arith)

  by_context-Ending : (c : ContextError) → ends_by_context c s ≡ ends s' a → Ending now s s' a
  unfolding ends_by_context
  by_context-Ending c h = refused (context_error c) (ground arith) (ground arith)

  terminal-Ending :
      (t : Terminal) (c : Option ContextError)
      → terminal_step bounded now t c s ≡ ends s' a
      → Ending now s s' a
  unfolding terminal_step
  terminal-Ending absent c h = fails-Ending _ h
  terminal-Ending closed_result c h = fails-Ending _ h
  terminal-Ending (value e true) c h = fails-Ending _ h
  terminal-Ending (value (some e) false) none h = fails-Ending e h
  terminal-Ending (value (some e) false) (some c) h =
      elim (Bool-cases (is_error e context_canceled)) [
        | inl q ↦ by_context-Ending c (rw (q, terminal_step) at h)
        | inr q ↦ fails-Ending e (rw (q, terminal_step) at h)
      ]
  terminal-Ending (value none false) c h = elim (Bool-cases bounded) [
    | inl q ↦ finished (ground arith) (ground arith)
    | inr q ↦ fails-Ending _ (rw (q, terminal_step) at h)
  ]

  pick-Ending : (p : Pick) → pick_step bounded now p s ≡ ends s' a → Ending now s s' a
  unfolding pick_step
  pick-Ending (done c) h = by_context-Ending c h
  pick-Ending (closed (some c) t c') h = by_context-Ending c h
  pick-Ending (closed none t c') h = terminal-Ending t c' h
  pick-Ending (event e (some c) x) h = by_context-Ending c h
  pick-Ending (event none none x) h = fails-Ending _ h
  pick-Ending (event (some e) none none) h = absurd (ground arith)
  pick-Ending (event (some e) none (some x)) h =
      refused (classified downstream_unavailable x) (ground arith) (ground arith)

module _ {F : Type 0} (bounded : Bool) where
  pub round-Ending :
      (r : Round) (s s' : Source F) (a : Option Error)
      → round_step bounded r s ≡ ends s' a
      → Ending r.now s s' a
  unfolding round_step
  round-Ending r s s' a h = elim (Option-cases r.context) [
    | inl q ↦ pick-Ending bounded r.now s s' a r.pick (rw (q, round_step) at h)
    | inr (c, q) ↦ by_context-Ending bounded r.now s s' a c (rw (q, round_step) at h)
  ]
