-- ===== src/Source/Stream/Failures.antt =====
-- What a failing stream of pkg/source/source.go does to the health of its source.
use flowctl_sdk.Base.{
  ℕ, ◌≡◌, refl, Bool, true, false, List, [], ◌∷◌, ◌++◌, Option, none, some, ◌⊎◌, inl, inr, arith,
  Bool-cases, subst, if◌then◌else◌,
}
use flowctl_sdk.Errors.{
  Error, ErrorKind, plain, invalid_request, as_stream_error, is_error, context_canceled,
}
use flowctl_sdk.Flowctl.Types.{unhealthy}
use flowctl_sdk.Service.{Service, set_status}
use flowctl_sdk.Source.{Source}
use flowctl_sdk.Source.Status.{stream_status}
use flowctl_sdk.Source.Stream.Turns.{Turn-cases}
use flowctl_sdk.Source.Stream.{
  ContextError, Terminal, absent, closed_result, value, Pick, event, done, closed, Round, Turn,
  sends, ends, fail_stream, terminal_step, pick_step, round_step, stream_loop, marks_unhealthy,
  kind_unhealthy,
}

-- An error that is the client's own: a request that was refused, or a cancellation.
pub data IsClients (e : Error) : Type 0 where
  bad_request : as_stream_error e ≡ some invalid_request → IsClients e
  cancelled_kind : as_stream_error e ≡ some ErrorKind.canceled → IsClients e
  cancelled_context : as_stream_error e ≡ none → is_error e context_canceled ≡ true → IsClients e

clients-healthy : {e : Error} → IsClients e → marks_unhealthy (as_stream_error e) e ≡ false
unfolding marks_unhealthy
clients-healthy (bad_request h) = rw h
clients-healthy (cancelled_kind h) = rw h
clients-healthy (cancelled_context h c) = rw (h, c)

kind-IsClients :
    (k : ErrorKind) (e : Error)
    → as_stream_error e ≡ some k
    → kind_unhealthy k ≡ false
    → IsClients e
unfolding kind_unhealthy
kind-IsClients ErrorKind.canceled e h u = cancelled_kind h
kind-IsClients invalid_request e h u = bad_request h
kind-IsClients _ e h u = absurd (ground arith)

healthy-IsClients :
    (o : Option ErrorKind) (e : Error)
    → as_stream_error e ≡ o
    → marks_unhealthy o e ≡ false
    → IsClients e
unfolding marks_unhealthy
healthy-IsClients (some k) e h u = kind-IsClients k e h u
healthy-IsClients none e h u = cancelled_context h (ground arith)

-- The error, if any, for which a stream fails at the end of its events.
pub terminal_cause : Bool → Terminal → Option ContextError → Option Error
terminal_cause bounded absent c = some (plain "missing terminal result")
terminal_cause bounded closed_result c = some (plain "missing terminal result")
terminal_cause bounded (value e true) c = some (plain "multiple terminal results")
terminal_cause bounded (value (some e) false) none = some e
terminal_cause bounded (value (some e) false) (some c) =
    if is_error e context_canceled then none else some e
terminal_cause bounded (value none false) c =
    if bounded then none else some (plain "unbounded producer ended without cancellation")

-- Nothing, where the context ends the stream or a send fails.
pub pick_cause : Bool → Pick → Option Error
pick_cause bounded (event none none x) = some (plain "nil producer event")
pick_cause bounded (closed none t c) = terminal_cause bounded t c
pick_cause bounded _ = none

pub is_sent : Pick → Bool
is_sent (event (some e) none none) = true
is_sent _ = false

pub round_sends : Round → Bool
round_sends r = elim r.context [ some c ↦ false | none ↦ is_sent r.pick ]

pub round_cause : Bool → Round → Option Error
round_cause bounded r = elim r.context [ some c ↦ none | none ↦ pick_cause bounded r.pick ]

-- The error for which the stream of a script fails: that of its first round that sends nothing.
pub cause : Bool → List Round → Option Error
cause bounded [] = none
cause bounded (r ∷ rs) =
    let rest = cause bounded rs in if round_sends r then rest else round_cause bounded r

module _ {F : Type 0} where
  -- What an answer and the service are after a stream that fails for an error, or for none.
  abbrev pub HealthAfter : Option Error → Service F → Option (Option Error) → Service F → Type 0
  HealthAfter none v a v' = v' ≡ v
  HealthAfter (some e) v a v' =
      (a ≡ some (stream_status (some e)))
      × ((IsClients e × (v' ≡ v)) ⊎ (¬ IsClients e × (v' ≡ set_status unhealthy v)))

  fail_stream-health :
      (now : ℕ) (e : Error) (s : Source F)
      → HealthAfter
          (some e)
          s.service
          (some (fail_stream now e s).1)
          (fail_stream now e s).0.service
  unfolding fail_stream
  fail_stream-health now e s = elim (Bool-cases (marks_unhealthy (as_stream_error e) e)) [
    | inl q ↦ (refl, inr (λ c. not_both q (clients-healthy c), rw (q, fail_stream) refl))
    | inr q ↦ (refl, inl (healthy-IsClients _ e refl q, rw (q, fail_stream) refl))
  ]
    where
      not_both : {b : Bool} → b ≡ true → b ≡ false → ⊥
      not_both p q = ground arith

  -- A turn that goes on leaves the service alone; one that ends leaves it as its cause says.
  abbrev TurnHealth : Bool → Option Error → Service F → Turn F → Type 0
  TurnHealth sent o v (sends e s') = (sent ≡ true) × (s'.service ≡ v)
  TurnHealth sent o v (ends s' a) = (sent ≡ false) × HealthAfter o v (some a) s'.service

  terminal-health :
      (bounded : Bool) (now : ℕ) (t : Terminal) (c : Option ContextError) (s : Source F)
      → TurnHealth false (terminal_cause bounded t c) s.service (terminal_step bounded now t c s)
  unfolding terminal_cause terminal_step
  terminal-health bounded now absent c s = (refl, fail_stream-health now _ s)
  terminal-health bounded now closed_result c s = (refl, fail_stream-health now _ s)
  terminal-health bounded now (value e true) c s = (refl, fail_stream-health now _ s)
  terminal-health bounded now (value (some e) false) none s = (refl, fail_stream-health now e s)
  terminal-health bounded now (value (some e) false) (some c) s =
      elim (Bool-cases (is_error e context_canceled)) [
        | inl q ↦ rw (q, terminal_cause, terminal_step) (refl, refl)
        | inr q ↦ rw (q, terminal_cause, terminal_step) (refl, fail_stream-health now e s)
      ]
  terminal-health true now (value none false) c s = (refl, refl)
  terminal-health false now (value none false) c s = (refl, fail_stream-health now _ s)

  pick-health :
      (bounded : Bool) (now : ℕ) (p : Pick) (s : Source F)
      → TurnHealth (is_sent p) (pick_cause bounded p) s.service (pick_step bounded now p s)
  unfolding pick_cause is_sent pick_step
  pick-health bounded now (done c) s = (refl, refl)
  pick-health bounded now (closed (some c) t c') s = (refl, refl)
  pick-health bounded now (closed none t c') s = terminal-health bounded now t c' s
  pick-health bounded now (event none (some c) x) s = (refl, refl)
  pick-health bounded now (event (some e) (some c) x) s = (refl, refl)
  pick-health bounded now (event none none x) s = (refl, fail_stream-health now _ s)
  pick-health bounded now (event (some e) none none) s = (refl, refl)
  pick-health bounded now (event (some e) none (some x)) s = (refl, refl)

  round-health :
      (bounded : Bool) (r : Round) (s : Source F)
      → TurnHealth (round_sends r) (round_cause bounded r) s.service (round_step bounded r s)
  unfolding round_sends round_cause round_step
  round-health bounded r s = go r.context refl
    where
      go :
          (o : Option ContextError)
          → r.context ≡ o
          → TurnHealth (round_sends r) (round_cause bounded r) s.service (round_step bounded r s)
      go (some c) q = rw (q, round_sends, round_cause, round_step) (refl, refl)
      go none q = rw (q, round_sends, round_cause, round_step) (pick-health bounded r.now r.pick s)

  -- A stream fails for one error at most. If that is the client's own, a refused request or a
  -- cancellation, the health of the source stays as it was; if it is not, the source is marked
  -- unhealthy; and the answer is that error's status. A stream that still runs, that its context ended,
  -- whose send failed or that came to its end leaves the health alone.
  pub stream_health :
      (bounded : Bool) (rs : List Round) (sent : List ℕ) (s : Source F)
      → let t = stream_loop bounded rs sent s in
        HealthAfter (cause bounded rs) s.service t.answer t.source.service
  unfolding stream_loop cause
  stream_health bounded [] sent s = refl
  stream_health bounded (r ∷ rs) sent s = elim (Turn-cases (round_step bounded r s)) [
    | inl (e, s', q) ↦
        let (g, v) =
          subst (λ t. TurnHealth (round_sends r) (round_cause bounded r) s.service t) q
            (round-health bounded r s) in
        let k = stream_health bounded rs (sent ++ e ∷ []) s' in
        rw (q, g, cause, stream_loop)
          (subst
            (λ u.
              let t = stream_loop bounded rs (sent ++ e ∷ []) s' in
              HealthAfter (cause bounded rs) u t.answer t.source.service)
            v k)
    | inr (s', a, q) ↦
        let (g, v) =
          subst (λ t. TurnHealth (round_sends r) (round_cause bounded r) s.service t) q
            (round-health bounded r s) in
        rw (q, g, cause, stream_loop) v
  ]
