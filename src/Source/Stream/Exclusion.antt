-- ===== src/Source/Stream/Exclusion.antt =====
-- At most one stream of pkg/source/source.go at a time.
use flowctl_sdk.Base.{
  ℕ, suc, ◌-◌, ◌≤◌, ◌<◌, ◌≡◌, ◌≢◌, refl, Bool, true, false, List, Option, none, some, inl, inr,
  arith, [], ◌∷◌, ◌++◌, ◌∙◌,
}
use flowctl_sdk.Errors.{Error, sentinel, already_streaming, Result, good, bad}
use flowctl_sdk.Source.{Source, Claim, begin_stream, end_stream}
use flowctl_sdk.Source.Stream.Turns.{
  Turn-cases, round_step-sends, Ending, finished, refused, failed, round-Ending,
}
use flowctl_sdk.Source.Stream.{
  Script, stream_events, run_producer, release, fail_stream, count_sent, Round, OldPick, old_done,
  old_stopped, old_closed, old_event, Produced, stream_loop, old_loop, old_step, start_loop,
  round_step, stream_with_result, failed_start,
}

-- A source and the number of its calls of StreamEvents that are past the locked head.
pub record Busy (F : Type 0) : Type 0 where
  pub source : Source F
  pub active : ℕ

-- Calls of StreamEvents and all else that works on the source, interleaved.
pub data Step {F : Type 0} (b : Busy F) : Busy F → Type 0 where
  enters :
      (c : Claim)
      → (s : Source F) → begin_stream b.source ≡ (s, (none, c))
      → Step b (record { source = s; active = suc b.active })
  is_refused :
      (e : Error) (c : Claim)
      → (s : Source F) → begin_stream b.source ≡ (s, (some e, c))
      → Step b (record b { source = s })
  leaves : 0 < b.active → Step b (record { source = end_stream b.source; active = b.active - 1 })
  works : (s : Source F) → s.streaming ≡ b.source.streaming → Step b (record b { source = s })

pub data Reach {F : Type 0} (b : Busy F) : Busy F → Type 0 where
  here : Reach b b
  next : {c d : Busy F} → Reach b c → Step c d → Reach b d

abbrev pub as_number : Bool → ℕ
as_number true = 1
as_number false = 0

-- The flag counts the active calls.
abbrev pub IsCounted : {F : Type 0} → Busy F → Type 0
IsCounted b = b.active ≡ as_number b.source.streaming

Step-IsCounted : {F : Type 0} {b c : Busy F} → Step b c → IsCounted b → IsCounted c
unfolding begin_stream end_stream
Step-IsCounted (enters c s e) h = ground arith
Step-IsCounted (is_refused x c s e) h = ground arith
Step-IsCounted (leaves l) h = ground arith
Step-IsCounted (works s e) h = ground arith

-- From a source whose flag tells the number of its calls, however calls of StreamEvents and other
-- work on the source that leaves the flag alone interleave, at most one call is past its head, and
-- the flag is set exactly while there is one.
pub one_stream :
    {F : Type 0} {b c : Busy F} → IsCounted b → Reach b c → (c.active ≤ 1) × IsCounted c
one_stream h here = ground arith
one_stream h (next r st) =
    let (l, k) = one_stream h r in let n = Step-IsCounted st k in ground arith

module _ {F : Type 0} where
  Ending-streaming :
      {now : ℕ} {s s' : Source F} {a : Option Error}
      → Ending now s s' a
      → s'.streaming ≡ s.streaming
  unfolding fail_stream
  Ending-streaming (finished p q) = ground arith
  Ending-streaming (refused e p q) = ground arith
  Ending-streaming (failed e p q) = ground arith

  count_sent-streaming :
      (now : ℕ) (s s' : Source F) → s' ≡ count_sent now s → s'.streaming ≡ s.streaming
  unfolding count_sent
  count_sent-streaming now s s' e = ground arith

  stream_loop-streaming :
      (b : Bool) (rs : List Round) (sent : List ℕ) (s : Source F)
      → (stream_loop b rs sent s).source.streaming ≡ s.streaming
  unfolding stream_loop
  stream_loop-streaming b [] sent s = refl
  stream_loop-streaming b (r ∷ rs) sent s = elim (Turn-cases (round_step b r s)) [
    | inl (e, s', q) ↦
        let (c, p, k) = round_step-sends b r s s' e q in
        rw (q, stream_loop)
          (stream_loop-streaming b rs (sent ++ e ∷ []) s' ∙ count_sent-streaming r.now s s' k)
    | inr (s', a, q) ↦ rw (q, stream_loop) (Ending-streaming (round-Ending b r s s' a q))
  ]

  old_loop-streaming :
      (ps : List OldPick) (sent : List ℕ) (s : Source F)
      → (old_loop ps sent s).source.streaming ≡ s.streaming
  unfolding old_loop old_step
  old_loop-streaming [] sent s = refl
  old_loop-streaming (old_done c ∷ ps) sent s = refl
  old_loop-streaming (old_stopped ∷ ps) sent s = refl
  old_loop-streaming (old_closed ∷ ps) sent s = refl
  old_loop-streaming (old_event now e (some x) ∷ ps) sent s = refl
  old_loop-streaming (old_event now e none ∷ ps) sent s =
      old_loop-streaming ps (sent ++ e ∷ []) (count_sent now s) ∙ count_sent-streaming now s _ refl

  start_loop-streaming :
      (now : ℕ) (p : Result (Option Produced)) (rs : List Round) (s : Source F)
      → (start_loop now p rs s).source.streaming ≡ s.streaming
  unfolding start_loop failed_start fail_stream
  start_loop-streaming now (bad e) rs s = ground arith
  start_loop-streaming now (good none) rs s = ground arith
  start_loop-streaming now (good (some p)) rs s =
      ground (arith, stream_loop-streaming p.bounded rs [] s)

  run_producer-streaming :
      (x : Script) (c : Claim) (s : Source F) → (run_producer x c s).source.streaming ≡ s.streaming
  unfolding run_producer stream_with_result
  run_producer-streaming x c s = ground (
    arith,
    start_loop-streaming x.startup.now x.startup.produced x.rounds s,
    old_loop-streaming x.old_picks [] s,
  )

  -- One call of StreamEvents: on a source that streams already it is refused and changes nothing; on
  -- another it holds the flag while it runs, and has given it back once it has an answer, whichever
  -- producer it ran and however the stream ended.
  pub stream_events_flag :
      (x : Script) (s : Source F)
      → (s.streaming ≡ true
          → stream_events x s
            ≡ record { source = s; sent = []; answer = some (some (sentinel already_streaming)) })
        × (s.streaming ≡ false
            → let t = stream_events x s in
              (t.answer ≡ none → t.source.streaming ≡ true)
              × (t.answer ≢ none → t.source.streaming ≡ false))
  unfolding stream_events begin_stream release end_stream
  stream_events_flag x s = (
    λ on. ground arith,
    λ off.
        let held : Source F = record s { streaming = true } in
        let claim : Claim = record {
          claimed_producer = s.producer;
          claimed_stream_producer = s.stream_producer;
        } in
        let kept = run_producer-streaming x claim held in (ground arith, ground arith),
  )
