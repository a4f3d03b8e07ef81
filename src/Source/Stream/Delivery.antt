-- ===== src/Source/Stream/Delivery.antt =====
-- When a stream of pkg/source/source.go ends well, and what has been sent and counted however it ends.
use flowctl_sdk.Base.{
  ℕ, ◌≡◌, refl, Bool, true, false, List, [], ◌∷◌, ◌++◌, append-nil, append_assoc, Option, none,
  some, inl, inr, ◌↔◌, arith, ◌∙◌,
}
use flowctl_sdk.Errors.{Error}
use flowctl_sdk.Source.{Source}
use flowctl_sdk.Source.Stream.Turns.{Turn-cases, round_step_ok, round_step-sends}
use flowctl_sdk.Source.Stream.{
  ContextError, value, event, closed, Round, ends, count_sent, terminal_step, pick_step, round_step,
  stream_loop,
}

-- A script whose stream ends well: the events sent, each without an error and before the context
-- ended, then the end of a bounded stream with one nil result.
pub data Completes (bounded : Bool) : List Round → List ℕ → Type 0 where
  last :
      (r : Round) (rs : List Round) (c : Option ContextError)
      → r.context ≡ none
      → r.pick ≡ closed none (value none false) c
      → bounded ≡ true
      → Completes bounded (r ∷ rs) []
  more :
      (r : Round) {rs : List Round} (e : ℕ) {es : List ℕ}
      → r.context ≡ none
      → r.pick ≡ event (some e) none none
      → Completes bounded rs es
      → Completes bounded (r ∷ rs) (e ∷ es)

module _ {F : Type 0} (bounded : Bool) where
  loop-Completes :
      (rs : List Round) (sent : List ℕ) (s : Source F)
      → (stream_loop bounded rs sent s).answer ≡ some none
      → (es : List ℕ) × Completes bounded rs es
        × ((stream_loop bounded rs sent s).sent ≡ sent ++ es)
  unfolding stream_loop
  loop-Completes [] sent s h = absurd (ground arith)
  loop-Completes (r ∷ rs) sent s h = elim (Turn-cases (round_step bounded r s)) [
    | inl (e, s', q) ↦
        let (c, p, k) = round_step-sends bounded r s s' e q in
        let (es, d, l) = loop-Completes rs (sent ++ e ∷ []) s' (rw (q, stream_loop) at h) in
        (e ∷ es, more r e c p d, rw (q, stream_loop) (l ∙ append_assoc sent (e ∷ []) es))
    | inr (s', a, q) ↦
        let (c, x, p, b) =
          round_step_ok bounded r s s' (answered s' a q (rw (q, stream_loop) at h)) in
        ([], last r rs x c p b, rw (q, stream_loop, append-nil))
  ]
    where
      answered :
          (s' : Source F) (a : Option Error)
          → round_step bounded r s ≡ ends s' a
          → some a ≡ some none
          → round_step bounded r s ≡ ends s' none
      answered s' a q e = ground arith

  Completes-ok :
      {rs : List Round} {es : List ℕ} (sent : List ℕ) (s : Source F)
      → Completes bounded rs es
      → ((stream_loop bounded rs sent s).answer ≡ some none)
        × ((stream_loop bounded rs sent s).sent ≡ sent ++ es)
  unfolding stream_loop round_step pick_step terminal_step
  Completes-ok sent s (last r rs c h p b) = rw (h, p, b, append-nil) (refl, refl)
  Completes-ok sent s (more r {rs} e {es} h p d) =
      let (a, l) = Completes-ok (sent ++ e ∷ []) (count_sent r.now s) d in
      rw (h, p) (a, l ∙ append_assoc sent (e ∷ []) es)

  -- A stream ends without an error exactly on the scripts that complete: every event received was
  -- sent, in order and with no failing Send, no look at the context found it ended, the producer
  -- declared itself bounded, and its one result was nil. The client then has all the events.
  pub stream_ok_iff :
      (rs : List Round) (s : Source F)
      → let t = stream_loop bounded rs [] s in (t.answer ≡ some none) ↔ Completes bounded rs t.sent
  stream_ok_iff rs s =
      (λ h. let (es, d, l) = loop-Completes rs [] s h in rw l d, λ d. (Completes-ok [] s d).0)
