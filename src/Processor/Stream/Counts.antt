-- ===== src/Processor/Stream/Counts.antt =====
-- What the metrics say of a stream of pkg/processor/processor.go, however it ends.
use flowctl_sdk.Base.{
  ℕ, suc, ◌≡◌, refl, ap, ◌∙◌, List, [], ◌∷◌, ◌++◌, append-nil, append_assoc, Option, none, some,
  inl, inr, arith, length,
}
use flowctl_sdk.Errors.{Error}
use flowctl_sdk.Flowctl.Metrics.{
  Floats, increment_processed_count, increment_error_count, increment_success_count,
  record_processing_latency,
}
use flowctl_sdk.Protocol.{Event}
use flowctl_sdk.Processor.{Processor}
use flowctl_sdk.Processor.Stream.{Round, emit, record_handled, process_loop, process}
use flowctl_sdk.Processor.Stream.Turns.{
  quits, closes, lacks, fails, filters, forwards, breaks, turn-Happens, with_error, with_success,
}
use flowctl_sdk.Processor.Stream.Verdicts.{
  no_event, unrouted, failing, filtered, forwarded, unsent, handler_verdict, Tally, add_verdict,
  tally, Tallied, verdict_served, verdict_unrouted, verdict-Outside, verdict_closed,
}

module _ {F : Type 0} (p : Processor F) (t : Tally) where
  no-Tallied : (a : Option (Option Error)) → Tallied p p 0 a (add_verdict no_event t)
  unfolding add_verdict
  no-Tallied a = record {
    sends = refl;
    processed = omega arith;
    successes = omega arith;
    errors = omega arith;
    answers = inl refl;
  }

module _ (fl : Floats) (r : Round) where
  open fl use {F}

  forwarded-Tallied :
      (p q : Processor F) (n : ℕ) (a : Option (Option Error)) (t : Tally)
      → Tallied (with_success fl r (record_handled fl r p)) q n a t
      → Tallied p q (suc n) a (add_verdict forwarded t)
  unfolding add_verdict record_handled increment_processed_count increment_success_count
      record_processing_latency
  forwarded-Tallied p q n a t k = record {
    sends = ap suc k.sends;
    processed = omega (arith, k.processed);
    successes = omega (arith, k.successes);
    errors = k.errors;
    answers = k.answers;
  }

  filtered-Tallied :
      (p q : Processor F) (n : ℕ) (a : Option (Option Error)) (t : Tally)
      → Tallied (record_handled fl r p) q n a t
      → Tallied p q n a (add_verdict filtered t)
  unfolding add_verdict record_handled increment_processed_count record_processing_latency
  filtered-Tallied p q n a t k = record {
    sends = k.sends;
    processed = omega (arith, k.processed);
    successes = k.successes;
    errors = k.errors;
    answers = k.answers;
  }

  unrouted-Tallied :
      (p : Processor F) (x : Error) (t : Tally)
      → Tallied p (with_error fl r p) 0 (some (some x)) (add_verdict unrouted t)
  unfolding add_verdict increment_error_count
  unrouted-Tallied p x t = record {
    sends = refl;
    processed = omega arith;
    successes = omega arith;
    errors = omega arith;
    answers = inr (refl, x, refl);
  }

  failing-Tallied :
      (p : Processor F) (x : Error) (t : Tally)
      → Tallied p
          (with_error fl r (record_handled fl r p))
          0
          (some (some x))
          (add_verdict failing t)
  unfolding add_verdict record_handled increment_processed_count increment_error_count
      record_processing_latency
  failing-Tallied p x t = record {
    sends = refl;
    processed = omega arith;
    successes = omega arith;
    errors = omega arith;
    answers = inr (refl, x, refl);
  }

  unsent-Tallied :
      (p : Processor F) (a : Option (Option Error)) (t : Tally)
      → Tallied p (with_success fl r (record_handled fl r p)) 0 a (add_verdict unsent t)
  unfolding add_verdict record_handled increment_processed_count increment_success_count
      record_processing_latency
  unsent-Tallied p a t = record {
    sends = refl;
    processed = omega arith;
    successes = omega arith;
    errors = omega arith;
    answers = inl refl;
  }

module _ (fl : Floats) where
  open fl use {F}

  loop-Tallied :
      (rs : List Round) (sent : List Event) (p : Processor F)
      → let t = process_loop fl rs sent p in
        (os : List Event) × (t.sent ≡ sent ++ os)
        × Tallied p t.processor (length os) t.answer (tally p.registry rs)
  unfolding process_loop emit tally add_verdict record_handled handler_verdict
  loop-Tallied [] sent p = (
    [],
    rw append-nil refl,
    no-Tallied p (record { handled = 0; forwarded = 0; succeeded = 0; failed = 0 }) none,
  )
  loop-Tallied (r ∷ rs) sent p =
      let g = p.registry in
      let rest = tally g rs in
      elim (turn-Happens fl r p _ r.pick refl refl) [
        | quits x o q ↦ (
          [],
          rw (q, process_loop, append-nil) refl,
          rw (q, process_loop, verdict-Outside g r x o) (no-Tallied p rest _),
        )
        | closes x v y q ↦ (
          [],
          rw (q, process_loop, append-nil) refl,
          rw (q, process_loop, verdict_closed g r x v) (no-Tallied p rest _),
        )
        | lacks e v y q ↦ (
          [],
          rw (q, process_loop, append-nil) refl,
          rw (q, process_loop, verdict_unrouted g r e v y) (unrouted-Tallied fl r p _ rest),
        )
        | fails e h x (v, hs, k) y q ↦ (
          [],
          rw (q, process_loop, append-nil) refl,
          rw (q, process_loop, verdict_served g r e h hs v k, y) (failing-Tallied fl r p _ rest),
        )
        | filters e h (v, hs, k) y q ↦
            let (os, l, t) = loop-Tallied rs (sent ++ []) (record_handled fl r p) in
            (
              os,
              rw (q, process_loop) (l ∙ append_assoc sent [] os),
              rw (q, process_loop, verdict_served g r e h hs v k, y)
                  (filtered-Tallied fl r p _ _ _ rest t),
            )
        | forwards e h o (v, hs, k) y s q ↦
            let (os, l, t) =
              loop-Tallied rs (sent ++ o ∷ []) (with_success fl r (record_handled fl r p)) in
            (
              o ∷ os,
              rw (q, process_loop) (l ∙ append_assoc sent (o ∷ []) os),
              rw (q, process_loop, verdict_served g r e h hs v k, y, s)
                  (forwarded-Tallied fl r p _ _ _ rest t),
            )
        | breaks e h o x (v, hs, k) y s q ↦ (
          [],
          rw (q, process_loop, append-nil) refl,
          rw (q, process_loop, verdict_served g r e h hs v k, y, s) (unsent-Tallied fl r p _ rest),
        )
      ]

  -- However a stream ends, and while it runs, the counters have moved by the tally of its script, to
  -- the bit: the processed count by the events that found a handler, the success count by those whose
  -- handler gave an output, forwarded or not, and the error count by the one, if any, that found no
  -- handler or whose handler failed, in which case the answer is an error. A filtered event is
  -- processed and no more. As many events were sent as the tally has forwarded.
  pub process_counts :
      (rs : List Round) (p : Processor F)
      → let t = process fl rs p in
        Tallied p t.processor (length t.sent) t.answer (tally p.registry rs)
  unfolding process
  process_counts rs p = let (os, l, t) = loop-Tallied rs [] p in rw l t
