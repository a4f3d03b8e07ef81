-- ===== src/Consumer/Stream/Drained.antt =====
-- How pkg/consumer/service.go's Consume answers a script that is drained.
use flowctl_sdk.Base.{
  ℕ, suc, ◌+◌, ◌%◌, ◌^◌, ◌<◌, ◌≡◌, refl, ◌∙◌, sym, ap, subst, Bool, true, false, List, Option, none,
  some, arith, length,
}
use flowctl_sdk.Base.Dict.{Dict}
use flowctl_sdk.Errors.{Error, Result, good, bad, is_eof}
use flowctl_sdk.Protocol.{Event}
use flowctl_sdk.Consumer.{Consumer}
use flowctl_sdk.Consumer.Stream.{
  Round, Tally, goes_on, ends, is_filtered, count_consumed, count_failed, looking, close_stream,
  finish_event, handle_event, take_event, round_step, consume_loop, consume,
}
use flowctl_sdk.Consumer.Stream.Turns.{
  IsReceived, IsHandled, is_cancellation, with_filtered, with_consumed, with_failed,
}
use flowctl_sdk.Consumer.Stream.Acknowledged.{
  Drains, at_eof, skipped, handled, unhandled, tally, closing, close_stream_lem, filtered_tally,
  consumed_tally, failed_tally,
}

module _ (fce : Error → Error) (r : Round) (c : Consumer) (l : Tally) where
  received_step :
      (x : Result (Option Event)) → IsReceived r x → round_step fce r c l ≡ take_event fce r x c l
  unfolding round_step looking
  received_step x (a, b, d, e) = simp (a, b, d, e)

  eof_step :
      (x : Error)
      → IsReceived r (bad x)
      → is_eof x ≡ true
      → round_step fce r c l ≡ ends (close_stream r l)
  unfolding take_event
  eof_step x v y = received_step (bad x) v ∙ rw y refl

  skip_step :
      (e : Event)
      → IsReceived r (good (some e))
      → is_filtered e c.input_type_set ≡ true
      → round_step fce r c l ≡ goes_on c (with_filtered l)
  unfolding take_event handle_event
  skip_step e v y = received_step (good (some e)) v ∙ rw y refl

  handle_step :
      (e : Event) (y : Option Error)
      → IsHandled r e y
      → is_filtered e c.input_type_set ≡ false
      → c.has_handler ≡ true
      → round_step fce r c l ≡ finish_event fce y c l
  unfolding take_event handle_event looking
  handle_step e y (v, a, b, h) n w = received_step (good (some e)) v ∙ rw (n, w) (simp (a, b, h))

  consume_step :
      (e : Event)
      → IsHandled r e none
      → is_filtered e c.input_type_set ≡ false
      → c.has_handler ≡ true
      → round_step fce r c l ≡ goes_on (count_consumed c) (with_consumed l)
  unfolding finish_event
  consume_step e v n w = handle_step e none v n w

  fail_step :
      (e : Event) (y : Error)
      → IsHandled r e (some y)
      → is_filtered e c.input_type_set ≡ false
      → c.has_handler ≡ true
      → is_cancellation y ≡ false
      → round_step fce r c l ≡ goes_on (count_failed c) (with_failed l)
  unfolding finish_event
  fail_step e y v n w g = handle_step e (some y) v n w ∙ rw g refl

-- The counters of a service after `n` consumed and `m` failed events.
pub record Counts (c c' : Consumer) (n m : ℕ) : Type 0 where
  pub consumed : c'.events_consumed % 2 ^ 64 ≡ (c.events_consumed + n) % 2 ^ 64
  pub succeeded : c'.success_count % 2 ^ 64 ≡ (c.success_count + n) % 2 ^ 64
  pub failed : c'.events_failed % 2 ^ 64 ≡ (c.events_failed + m) % 2 ^ 64
  pub errors : c'.error_count % 2 ^ 64 ≡ (c.error_count + m) % 2 ^ 64

module _ (c c' : Consumer) (n m : ℕ) where
  consumed_first : Counts (count_consumed c) c' n m → Counts c c' (suc n) m
  unfolding count_consumed
  consumed_first t = record {
    consumed = omega (arith, t.consumed);
    succeeded = omega (arith, t.succeeded);
    failed = t.failed;
    errors = t.errors;
  }

  failed_first : Counts (count_failed c) c' n m → Counts c c' n (suc m)
  unfolding count_failed
  failed_first t = record {
    consumed = t.consumed;
    succeeded = t.succeeded;
    failed = omega (arith, t.failed);
    errors = omega (arith, t.errors);
  }

nothing_counted : (c : Consumer) → Counts c c 0 0
nothing_counted c = record {
  consumed = omega arith;
  succeeded = omega arith;
  failed = omega arith;
  errors = omega arith;
}

closing_eq :
    (n n' m m' k k' : ℕ) (z : Option Error)
    → n ≡ n'
    → m ≡ m'
    → k ≡ k'
    → some (closing n m k z) ≡ some (closing n' m' k' z)
closing_eq n n' m m' k k' z p q s =
    ap (λ j. some (closing j m k z)) p
    ∙ ap (λ j. some (closing n' j k z)) q
    ∙ ap (λ j. some (closing n' m' j z)) s

module _ (fce : Error → Error) where
  loop_drained :
      {types : Dict Bool} {h : Bool} {rs : List Round} {n m k : ℕ} {z : Option Error}
      → Drains types h rs n m k z
      → (c : Consumer) (a b d : ℕ) → a + b + d + length rs < 2 ^ 63
      → c.input_type_set ≡ types
      → c.has_handler ≡ h
      → let t = consume_loop fce rs c (tally a b d) in
        (t.1 ≡ some (closing (n + a) (m + b) (k + d) z)) × Counts c t.0 n m
  unfolding consume_loop count_consumed count_failed
  loop_drained (at_eof r rs x v y) c a b d l i g =
      let q =
        eof_step fce r c (tally a b d) x v y ∙ ap ends (close_stream_lem r a b d (omega arith)) in
      (
        rw (q, consume_loop)
            (closing_eq a (0 + a) b (0 + b) d (0 + d) r.send_and_close (omega arith) (omega arith)
              (omega arith)),
        rw (q, consume_loop) (nothing_counted c),
      )
  loop_drained (skipped r {rs} {n} {m} {k} {z} e v y t) c a b d l i g =
      let q = skip_step fce r c (tally a b d) e v (subst (λ s. is_filtered e s ≡ true) (sym i) y) in
      let (w, u) = loop_drained t c a b (suc d) (omega arith) i g in
      (
        rw (q, consume_loop, filtered_tally a b d (omega arith))
            (w
              ∙ closing_eq (n + a) (n + a) (m + b) (m + b) (k + suc d) (suc k + d) z refl refl
                  (omega arith)),
        rw (q, consume_loop, filtered_tally a b d (omega arith)) u,
      )
  loop_drained (handled r {rs} {n} {m} {k} {z} e v y w t) c a b d l i g =
      let q =
        consume_step fce r c (tally a b d) e v (subst (λ s. is_filtered e s ≡ false) (sym i) y)
          (g ∙ w) in
      let (w, u) = loop_drained t (count_consumed c) (suc a) b d (omega arith) i g in
      (
        rw (q, consume_loop, consumed_tally a b d (omega arith))
            (w
              ∙ closing_eq (n + suc a) (suc n + a) (m + b) (m + b) (k + d) (k + d) z (omega arith)
                  refl refl),
        rw (q, consume_loop, consumed_tally a b d (omega arith)) (consumed_first c _ n m u),
      )
  loop_drained (unhandled r {rs} {n} {m} {k} {z} e x v y w p t) c a b d l i g =
      let q =
        fail_step fce r c (tally a b d) e x v (subst (λ s. is_filtered e s ≡ false) (sym i) y)
          (g ∙ w) p in
      let (w, u) = loop_drained t (count_failed c) a (suc b) d (omega arith) i g in
      (
        rw (q, consume_loop, failed_tally a b d (omega arith))
            (w
              ∙ closing_eq (n + a) (n + a) (m + suc b) (suc m + b) (k + d) (k + d) z refl
                  (omega arith) refl),
        rw (q, consume_loop, failed_tally a b d (omega arith)) (failed_first c _ n m u),
      )

  -- A drained script of fewer than 2 ^ 63 rounds is answered with the counts and one summary for
  -- each failure up to eight, or as a failed precondition where only the filter took events; and
  -- the counters of the service have grown by the events that the callback took and failed.
  pub consume_drained :
      {rs : List Round} {n m k : ℕ} {z : Option Error} (c : Consumer)
      → length rs < 2 ^ 63
      → Drains c.input_type_set c.has_handler rs n m k z
      → ((consume fce rs c).1 ≡ some (closing n m k z)) × Counts c (consume fce rs c).0 n m
  unfolding consume
  consume_drained {rs} {n} {m} {k} {z} c l t =
      let (w, u) = loop_drained t c 0 0 0 (omega arith) refl refl in
      (w ∙ closing_eq (n + 0) n (m + 0) m (k + 0) k z (omega arith) (omega arith) (omega arith), u)
