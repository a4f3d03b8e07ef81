-- ===== src/Consumer/Stream/Answers.antt =====
-- Which errors pkg/consumer/service.go's Consume makes.
use flowctl_sdk.Base.{◌≡◌, refl, subst, List, [], ◌∷◌, some, arith}
use flowctl_sdk.Errors.{Error}
use flowctl_sdk.Consumer.{Consumer}
use flowctl_sdk.Consumer.Stream.{Round, Tally, error, close_stream, consume_loop, consume}
use flowctl_sdk.Consumer.Stream.Turns.{
  Public, no_match, refuses, closes, skips, consumes, fails, round-Happens,
}

module _ (fce : Error → Error) where
  close_stream-Public :
      (r : Round) (l : Tally) (x : Error) → close_stream r l ≡ error x → Public fce x
  unfolding close_stream
  close_stream-Public r l x h = no_match (ground arith)

  loop-Public :
      (rs : List Round) (c : Consumer) (l : Tally) (x : Error)
      → (consume_loop fce rs c l).1 ≡ some (error x)
      → Public fce x
  unfolding consume_loop
  loop-Public [] c l x h = absurd (ground arith)
  loop-Public (r ∷ rs) c l x h = elim (round-Happens fce r c l _ refl) [
    | refuses y p q ↦ let e : y ≡ x = ground arith in subst (λ z. Public fce z) e p
    | closes y v w q ↦ close_stream-Public r l x (ground arith)
    | skips e v y q ↦ loop-Public rs _ _ x (rw (q, consume_loop) at h)
    | consumes e v y w q ↦ loop-Public rs _ _ x (rw (q, consume_loop) at h)
    | fails e y v w g k q ↦ loop-Public rs _ _ x (rw (q, consume_loop) at h)
  ]

  -- An error with which Consume answers is a status with one of five fixed texts, or the conversion
  -- of a context's error or of a callback's cancellation.
  pub consume_hides_cause :
      (rs : List Round) (c : Consumer) (x : Error)
      → (consume fce rs c).1 ≡ some (error x)
      → Public fce x
  unfolding consume
  consume_hides_cause rs c x h = loop-Public rs c _ x h
