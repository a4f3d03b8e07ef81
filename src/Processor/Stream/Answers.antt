-- ===== src/Processor/Stream/Answers.antt =====
-- Which errors a client of pkg/processor/processor.go's Process can see.
use flowctl_sdk.Base.{
  ◌≡◌, refl, subst, true, ◌||◌, Bool-cases, Option-cases, inl, inr, List, [], ◌∷◌, some, arith,
}
use flowctl_sdk.Errors.{
  Error, sentinel, plain, handler_not_found, is_error, context_canceled, context_deadline_exceeded,
}
use flowctl_sdk.Flowctl.Metrics.{Floats}
use flowctl_sdk.Protocol.{Event}
use flowctl_sdk.Processor.{Processor}
use flowctl_sdk.Processor.Stream.{Round, handler_error, process_loop, process}
use flowctl_sdk.Processor.Stream.Turns.{
  Outside, quits, closes, lacks, fails, filters, forwards, breaks, turn-Happens,
}

-- An error that one round lets through: one from outside of the processor, the two that the processor
-- makes itself, a context's or a failed Send's, and of a handler's errors the cancellations only.
pub data Shown (r : Round) (x : Error) : Type 0 where
  outside : Outside r.pick x → Shown r x
  no_handler : x ≡ sentinel handler_not_found → Shown r x
  generic : x ≡ plain "processor handler failed" → Shown r x
  by_context : r.context ≡ some x → Shown r x
  unsent : r.send ≡ some x → Shown r x
  cancelled :
      (is_error x context_canceled || is_error x context_deadline_exceeded) ≡ true → Shown r x

-- A round of the script lets the error through.
pub data ShownIn : List Round → Error → Type 0 where
  here : {r : Round} {rs : List Round} {x : Error} → Shown r x → ShownIn (r ∷ rs) x
  later : {r : Round} {rs : List Round} {x : Error} → ShownIn rs x → ShownIn (r ∷ rs) x

handler_error-Shown : (r : Round) (e : Error) → Shown r (handler_error r.context e)
unfolding handler_error
handler_error-Shown r e = elim (Option-cases r.context) [
  | inr (c, q) ↦ by_context (rw (q, handler_error) refl)
  | inl q ↦
      elim (Bool-cases (is_error e context_canceled || is_error e context_deadline_exceeded)) [
        | inl k ↦ rw (q, handler_error, k) (cancelled k)
        | inr k ↦ rw (q, handler_error, k) (generic refl)
      ]
]

module _ (fl : Floats) where
  open fl use {F}

  loop-ShownIn :
      (rs : List Round) (sent : List Event) (p : Processor F) (x : Error)
      → (process_loop fl rs sent p).answer ≡ some (some x)
      → ShownIn rs x
  unfolding process_loop
  loop-ShownIn [] sent p x k = absurd (ground arith)
  loop-ShownIn (r ∷ rs) sent p x k = elim (turn-Happens fl r p _ r.pick refl refl) [
    | quits y o q ↦ here (same y (outside o) (rw (q, process_loop) at k))
    | closes y v w q ↦ absurd (ground arith)
    | lacks e v w q ↦ here (same _ (no_handler refl) (rw (q, process_loop) at k))
    | fails e h y v w q ↦ here (same _ (handler_error-Shown r y) (rw (q, process_loop) at k))
    | filters e h v w q ↦ later (loop-ShownIn rs _ _ x (rw (q, process_loop) at k))
    | forwards e h o v w s q ↦ later (loop-ShownIn rs _ _ x (rw (q, process_loop) at k))
    | breaks e h o y v w s q ↦ here (same y (unsent s) (rw (q, process_loop) at k))
  ]
    where
      same : (y : Error) → Shown r y → some (some y) ≡ some (some x) → Shown r x
      same y v e = let q : y ≡ x = ground arith in subst (λ z. Shown r z) q v

  -- An error with which Process answers is the context's, the stop's, the client's or a failed
  -- Send's, says that no handler was found or that one failed, or is a handler's cancellation: what
  -- a handler's other errors say does not reach the client.
  pub process_hides_cause :
      (rs : List Round) (p : Processor F) (x : Error)
      → (process fl rs p).answer ≡ some (some x)
      → ShownIn rs x
  unfolding process
  process_hides_cause rs p x k = loop-ShownIn rs [] p x k
