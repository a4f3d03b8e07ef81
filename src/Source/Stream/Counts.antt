-- ===== src/Source/Stream/Counts.antt =====
-- What the metrics say of a stream of pkg/source/source.go, however it ends.
use flowctl_sdk.Base.{
  ℕ, suc, ◌+◌, ◌%◌, ◌^◌, ◌≡◌, Bool, List, [], ◌∷◌, ◌++◌, append-nil, append_assoc, Option, none,
  some, inl, inr, arith, length, ◌∙◌,
}
use flowctl_sdk.Errors.{Error}
use flowctl_sdk.Flowctl.Metrics.{
  increment_processed_count, increment_error_count, increment_success_count,
}
use flowctl_sdk.Source.{Source}
use flowctl_sdk.Source.Status.{IsPublic, stream_status-IsPublic}
use flowctl_sdk.Source.Stream.Turns.{
  Turn-cases, round_step-sends, Ending, finished, refused, failed, round-Ending,
}
use flowctl_sdk.Source.Stream.{Round, fail_stream, count_sent, round_step, stream_loop}

-- How the counters move: each event sent is one processed and one success.
pub record Counted {F : Type 0} (s t : Source F) (n failures : ℕ) : Type 0 where
  pub processed : t.metrics.processed_count % 2 ^ 64 ≡ (s.metrics.processed_count + n) % 2 ^ 64
  pub succeeded : t.metrics.success_count % 2 ^ 64 ≡ (s.metrics.success_count + n) % 2 ^ 64
  pub errors : t.metrics.error_count % 2 ^ 64 ≡ (s.metrics.error_count + failures) % 2 ^ 64

-- An error is counted only for a stream that answers with an error, one for the client to see.
pub data Answered : ℕ → Option (Option Error) → Type 0 where
  running : Answered 0 none
  succeeded : Answered 0 (some none)
  uncounted : {e : Error} → IsPublic e → Answered 0 (some (some e))
  counted_once : {e : Error} → IsPublic e → Answered 1 (some (some e))

module _ {F : Type 0} (bounded : Bool) where
  count_sent-Counted :
      (now n f : ℕ) (s s' t : Source F)
      → s' ≡ count_sent now s
      → Counted s' t n f
      → Counted s t (suc n) f
  unfolding count_sent increment_processed_count increment_success_count
  count_sent-Counted now n f s s' t e k = let k' = rw e at k in omega arith

  fail_stream-Counted : (now : ℕ) (e : Error) (s : Source F) → Counted s (fail_stream now e s).0 0 1
  unfolding fail_stream increment_error_count
  fail_stream-Counted now e s = ground arith

  ends-Counted :
      (now : ℕ) (s s' : Source F) (a : Option Error)
      → Ending now s s' a
      → (f : ℕ) × Counted s s' 0 f × Answered f (some a)
  unfolding fail_stream
  ends-Counted now s s' a (finished p q) = (0, rw p (ground arith), rw q succeeded)
  ends-Counted now s s' a (refused e p q) =
      let (x, k, v) = stream_status-IsPublic e in (0, rw p (ground arith), rw (q, k) (uncounted v))
  ends-Counted now s s' a (failed e p q) =
      let (x, k, v) = stream_status-IsPublic e in
      (1, rw p (fail_stream-Counted now e s), rw (q, k) (counted_once v))

  counted :
      (rs : List Round) (sent : List ℕ) (s : Source F)
      → let t = stream_loop bounded rs sent s in
        (es : List ℕ) × (f : ℕ) × (t.sent ≡ sent ++ es)
        × Counted s t.source (length es) f
        × Answered f t.answer
  unfolding stream_loop
  counted [] sent s = ([], 0, rw append-nil, ground arith, running)
  counted (r ∷ rs) sent s = elim (Turn-cases (round_step bounded r s)) [
    | inl (e, s', q) ↦
        let (c, p, k) = round_step-sends bounded r s s' e q in
        let (es, f, l, m, a) = counted rs (sent ++ e ∷ []) s' in
        (
          e ∷ es,
          f,
          rw (q, stream_loop) (l ∙ append_assoc sent (e ∷ []) es),
          rw (q, stream_loop) (count_sent-Counted r.now (length es) f s s' _ k m),
          rw (q, stream_loop) a,
        )
    | inr (s', a, q) ↦
        let (f, m, v) = ends-Counted r.now s s' a (round-Ending bounded r s s' a q) in
        ([], f, rw (q, stream_loop, append-nil), rw (q, stream_loop) m, rw (q, stream_loop) v)
  ]

  -- However a stream ends, and while it runs: the processed and the success count have grown by the
  -- number of events sent, and the error count by at most one, and only for a stream that answers
  -- with one of the fixed public errors.
  pub stream_counts :
      (rs : List Round) (s : Source F)
      → let t = stream_loop bounded rs [] s in
        (f : ℕ) × Counted s t.source (length t.sent) f × Answered f t.answer
  stream_counts rs s = let (es, f, l, m, a) = counted rs [] s in (f, rw l m, a)
