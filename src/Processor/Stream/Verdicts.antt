-- ===== src/Processor/Stream/Verdicts.antt =====
-- The tally of a script of Process of pkg/processor/processor.go.
use flowctl_sdk.Base.{ℕ, suc, ◌+◌, ◌%◌, ◌^◌, ◌≡◌, refl, List, [], ◌∷◌, Option, none, some, ◌⊎◌}
use flowctl_sdk.Errors.{Error, Result, good, bad}
use flowctl_sdk.Protocol.{Event}
use flowctl_sdk.Processor.{Processor}
use flowctl_sdk.Processor.Handler.{Handler, Registry, get_handlers_for_type}
use flowctl_sdk.Processor.Stream.{done, stopped, received, Round}
use flowctl_sdk.Processor.Stream.Turns.{Outside, by_context, by_stop, by_client}

-- What becomes of a round: it handles no event, or its event finds no handler, fails in its handler,
-- is filtered, is forwarded, or cannot be sent.
pub data Verdict : Type 0 where
  no_event unrouted failing filtered forwarded unsent : Verdict

-- By what the handler returns, and what Send does.
unfoldable pub handler_verdict : Result (Option Event) → Option Error → Verdict
handler_verdict (bad x) s = failing
handler_verdict (good none) s = filtered
handler_verdict (good (some o)) none = forwarded
handler_verdict (good (some o)) (some x) = unsent

pub event_verdict : Round → Event → List Handler → Verdict
event_verdict r e [] = unrouted
event_verdict r e (h ∷ hs) = handler_verdict (r.handle h e) r.send

pub verdict : Registry → Round → Verdict
verdict g r = elim r.pick [
  | done x ↦ no_event
  | stopped ↦ no_event
  | received (bad x) ↦ no_event
  | received (good e) ↦ event_verdict r e (get_handlers_for_type e.event_type g)
]

-- The numbers of events that were sent to a handler, forwarded, processed with success, and failed.
pub record Tally : Type 0 where
  pub handled : ℕ
  pub forwarded : ℕ
  pub succeeded : ℕ
  pub failed : ℕ

-- One more event, before what the rest of the rounds comes to.
unfoldable pub add_verdict : Verdict → Tally → Tally
add_verdict no_event t = record { handled = 0; forwarded = 0; succeeded = 0; failed = 0 }
add_verdict unrouted t = record { handled = 0; forwarded = 0; succeeded = 0; failed = 1 }
add_verdict failing t = record { handled = 1; forwarded = 0; succeeded = 0; failed = 1 }
add_verdict unsent t = record { handled = 1; forwarded = 0; succeeded = 1; failed = 0 }
add_verdict filtered t = record t { handled = suc t.handled }
add_verdict forwarded t = record {
  handled = suc t.handled;
  forwarded = suc t.forwarded;
  succeeded = suc t.succeeded;
  failed = t.failed;
}

-- The tally of a script: it ends with the first event that is neither filtered nor forwarded.
unfoldable pub tally : Registry → List Round → Tally
tally g [] = record { handled = 0; forwarded = 0; succeeded = 0; failed = 0 }
tally g (r ∷ rs) = add_verdict (verdict g r) (tally g rs)

-- The counters of `q` are those of `p`, moved by the tally, and the answer of a stream that counts an
-- error is an error.
pub record Tallied {F : Type 0} (p q : Processor F) (sent : ℕ) (a : Option (Option Error))
    (t : Tally) : Type 0 where
  pub sends : sent ≡ t.forwarded
  pub processed :
      q.metrics.processed_count % 2 ^ 64 ≡ (p.metrics.processed_count + t.handled) % 2 ^ 64
  pub successes :
      q.metrics.success_count % 2 ^ 64 ≡ (p.metrics.success_count + t.succeeded) % 2 ^ 64
  pub errors : q.metrics.error_count % 2 ^ 64 ≡ (p.metrics.error_count + t.failed) % 2 ^ 64
  pub answers : (t.failed ≡ 0) ⊎ ((t.failed ≡ 1) × (x : Error) × (a ≡ some (some x)))

pub verdict_served :
    (g : Registry) (r : Round) (e : Event) (h : Handler) (hs : List Handler)
    → r.pick ≡ received (good e)
    → get_handlers_for_type e.event_type g ≡ h ∷ hs
    → verdict g r ≡ handler_verdict (r.handle h e) r.send
unfolding verdict event_verdict
verdict_served g r e h hs v k = rw (v, k, verdict) refl

pub verdict_unrouted :
    (g : Registry) (r : Round) (e : Event)
    → r.pick ≡ received (good e)
    → get_handlers_for_type e.event_type g ≡ []
    → verdict g r ≡ unrouted
unfolding verdict event_verdict
verdict_unrouted g r e v k = rw (v, k, verdict) refl

pub verdict-Outside :
    (g : Registry) (r : Round) (x : Error) → Outside r.pick x → verdict g r ≡ no_event
unfolding verdict
verdict-Outside g r x (by_context q) = rw q refl
verdict-Outside g r x (by_stop q e) = rw q refl
verdict-Outside g r x (by_client q e) = rw q refl

pub verdict_closed :
    (g : Registry) (r : Round) (x : Error) → r.pick ≡ received (bad x) → verdict g r ≡ no_event
unfolding verdict
verdict_closed g r x q = rw q refl
