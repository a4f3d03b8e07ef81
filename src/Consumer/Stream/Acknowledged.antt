-- ===== src/Consumer/Stream/Acknowledged.antt =====
-- When pkg/consumer/service.go's Consume answers with a response, and what the response says.
use flowctl_sdk.Base.{
  ℕ, suc, ◌+◌, ◌^◌, ◌<◌, ◌≡◌, refl, ◌∙◌, sym, ap, subst, Bool, true, false, Bool-cases, List, [],
  ◌∷◌, ◌++◌, Option, none, some, ◌⊎◌, inl, inr, String, inc64, ltb, ◌==◌, ◌&&◌, zero, if◌then◌else◌,
  arith, length, replicate,
}
use flowctl_sdk.Base.Dict.{Dict}
use flowctl_sdk.Errors.{Error, status, Code, is_eof, good, bad}
use flowctl_sdk.Protocol.{Event}
use flowctl_sdk.Consumer.{Consumer}
use flowctl_sdk.Consumer.Stream.{
  Round, Response, Tally, Answer, error, responds, is_filtered, summarise, count_consumed,
  count_failed, close_stream, consume_loop, consume,
}
use flowctl_sdk.Consumer.Stream.Turns.{
  IsReceived, IsHandled, is_cancellation, with_filtered, with_consumed, with_failed, refuses,
  closes, skips, consumes, fails, round-Happens,
}

-- A script that is drained: up to the end of the input, each event is filtered by its type, or the
-- callback returns no error, or one that is no cancellation. The numbers count these three kinds.
pub data Drains (types : Dict Bool) (has_handler : Bool)
    : List Round → ℕ → ℕ → ℕ → Option Error → Type 0 where
  at_eof :
      (r : Round) (rs : List Round) (x : Error)
      → IsReceived r (bad x)
      → is_eof x ≡ true
      → Drains types has_handler (r ∷ rs) 0 0 0 r.send_and_close
  skipped :
      (r : Round) {rs : List Round} {n m k : ℕ} {z : Option Error} (e : Event)
      → IsReceived r (good (some e))
      → is_filtered e types ≡ true
      → Drains types has_handler rs n m k z
      → Drains types has_handler (r ∷ rs) n m (suc k) z
  handled :
      (r : Round) {rs : List Round} {n m k : ℕ} {z : Option Error} (e : Event)
      → IsHandled r e none
      → is_filtered e types ≡ false
      → has_handler ≡ true
      → Drains types has_handler rs n m k z
      → Drains types has_handler (r ∷ rs) (suc n) m k z
  unhandled :
      (r : Round) {rs : List Round} {n m k : ℕ} {z : Option Error} (e : Event) (y : Error)
      → IsHandled r e (some y)
      → is_filtered e types ≡ false
      → has_handler ≡ true
      → is_cancellation y ≡ false
      → Drains types has_handler rs n m k z
      → Drains types has_handler (r ∷ rs) n (suc m) k z

-- At most eight summaries, all with the same text.
abbrev pub texts : ℕ → List String
texts m = replicate (if ltb m 8 then m else 8) "consumer handler failed"

abbrev pub response : ℕ → ℕ → Response
response n m = record { consumed = n; failed = m; errors = texts m }

abbrev pub tally : ℕ → ℕ → ℕ → Tally
tally n m k = record { consumed = n; failed = m; filtered = k; summaries = texts m }

replicate_more : (n : ℕ) (t : String) → replicate n t ++ t ∷ [] ≡ replicate (suc n) t
replicate_more zero t = refl
replicate_more (suc n) t = ap (λ ts. t ∷ ts) (replicate_more n t)

length-replicate : (n : ℕ) (t : String) → length (replicate n t) ≡ n
length-replicate zero t = refl
length-replicate (suc n) t = ap suc (length-replicate n t)

summarise-texts : (m : ℕ) → summarise (texts m) ≡ texts (suc m)
unfolding summarise
summarise-texts m = elim (Bool-cases (ltb m 8)) [
  | inl q ↦
      rw (q, length-replicate, q, replicate_more)
        (ap (λ n. replicate n "consumer handler failed") {x = suc m} (ground arith))
  | inr q ↦ rw q (ap (λ n. replicate n "consumer handler failed") {x = 8} (ground arith))
]

-- How a drained call ends.
abbrev pub closing : ℕ → ℕ → ℕ → Option Error → Answer
closing n m k z =
    if ltb 0 k && n + m == 0
    then error (status Code.failed_precondition "no events matched consumer input types")
    else responds (response n m) z

pub close_stream_lem :
    (r : Round) (n m k : ℕ)
    → n + m + k < 2 ^ 63
    → close_stream r (tally n m k) ≡ closing n m k r.send_and_close
unfolding close_stream
close_stream_lem r n m k b = ground arith

closing_responds :
    (n m k : ℕ) (z z' : Option Error) (c : Response)
    → closing n m k z ≡ responds c z'
    → (c ≡ response n m) × (z' ≡ z) × ((k ≡ 0) ⊎ (0 < n + m))
closing_responds n m k z z' c q = ground arith

module _ (n m k : ℕ) (b : n + m + k + 1 < 2 ^ 63) where
  pub filtered_tally : with_filtered (tally n m k) ≡ tally n m (suc k)
  filtered_tally = ap (λ j. tally n m j) {x = inc64 k} (omega arith)

  pub consumed_tally : with_consumed (tally n m k) ≡ tally (suc n) m k
  consumed_tally = ap (λ j. tally j m k) {x = inc64 n} (omega arith)

  pub failed_tally : with_failed (tally n m k) ≡ tally n (suc m) k
  failed_tally = rw summarise-texts (
      ap (λ j. record { consumed = n; failed = j; filtered = k; summaries = texts (suc m) })
        {x = inc64 m} (omega arith))

-- What a script that is drained leaves to be said of `c` and `z`.
abbrev pub Acknowledged : Consumer → List Round → ℕ → ℕ → ℕ → Response → Option Error → Type 0
Acknowledged c rs n m k a z =
    (n' : ℕ) × (m' : ℕ) × (k' : ℕ) × Drains c.input_type_set c.has_handler rs n' m' k' z
    × (a ≡ response (n + n') (m + m'))
    × ((k + k' ≡ 0) ⊎ (0 < n + n' + (m + m')))

response_eq :
    {n n' m m' : ℕ} {a : Response} → a ≡ response n m → n ≡ n' → m ≡ m' → a ≡ response n' m'
response_eq {n} {n'} {m} {m'} e p q = e ∙ ap (λ j. response j m) p ∙ ap (λ j. response n' j) q

module _ (c : Consumer) (r : Round) (rs : List Round) (n m k : ℕ) (a : Response) (z : Option Error)
    (e : Event) where
  skipped_first :
      IsReceived r (good (some e))
      → is_filtered e c.input_type_set ≡ true
      → Acknowledged c rs n m (suc k) a z
      → Acknowledged c (r ∷ rs) n m k a z
  skipped_first v y (n', m', k', d, i, l) =
      (n', m', suc k', skipped r e v y d, i, ground (arith, l))

  handled_first :
      IsHandled r e none
      → is_filtered e c.input_type_set ≡ false
      → c.has_handler ≡ true
      → Acknowledged (count_consumed c) rs (suc n) m k a z
      → Acknowledged c (r ∷ rs) n m k a z
  unfolding count_consumed
  handled_first v y w (n', m', k', d, i, l) =
      (suc n', m', k', handled r e v y w d, response_eq i (omega arith) refl, ground (arith, l))

  unhandled_first :
      (y : Error)
      → IsHandled r e (some y)
      → is_filtered e c.input_type_set ≡ false
      → c.has_handler ≡ true
      → is_cancellation y ≡ false
      → Acknowledged (count_failed c) rs n (suc m) k a z
      → Acknowledged c (r ∷ rs) n m k a z
  unfolding count_failed
  unhandled_first x v y w g (n', m', k', d, i, l) = (
    n',
    suc m',
    k',
    unhandled r e x v y w g d,
    response_eq i refl (omega arith),
    ground (arith, l),
  )

closed_first :
    (c : Consumer) (r : Round) (rs : List Round) (n m k : ℕ) (a : Response) (z : Option Error)
    (x : Error)
    → IsReceived r (bad x)
    → is_eof x ≡ true
    → closing n m k r.send_and_close ≡ responds a z
    → Acknowledged c (r ∷ rs) n m k a z
closed_first c r rs n m k a z x v y e =
    let (i, j, l) = closing_responds n m k r.send_and_close z a e in
    (
      0,
      0,
      0,
      subst (λ t. Drains c.input_type_set c.has_handler (r ∷ rs) 0 0 0 t) (sym j)
          (at_eof r rs x v y),
      response_eq i (omega arith) (omega arith),
      ground (arith, l),
    )

module _ (fce : Error → Error) where
  loop-Acknowledged :
      (rs : List Round) (c : Consumer) (n m k : ℕ) (a : Response) (z : Option Error)
      → n + m + k + length rs < 2 ^ 63
      → (consume_loop fce rs c (tally n m k)).1 ≡ some (responds a z)
      → Acknowledged c rs n m k a z
  unfolding consume_loop
  loop-Acknowledged [] c n m k a z b h = absurd (ground arith)
  loop-Acknowledged (r ∷ rs) c n m k a z b h = elim (round-Happens fce r c (tally n m k) _ refl) [
    | refuses x p q ↦ absurd (ground arith)
    | closes x v y q ↦
        let e = close_stream_lem r n m k (omega arith) in
        closed_first c r rs n m k a z x v y (ground arith)
    | skips e v y q ↦ skipped_first c r rs n m k a z e v y (
        loop-Acknowledged rs c n m (suc k) a z (omega arith)
          (rw (q, consume_loop, filtered_tally n m k (omega arith)) at h))
    | consumes e v y w q ↦ handled_first c r rs n m k a z e v y w (
        loop-Acknowledged rs (count_consumed c) (suc n) m k a z (omega arith)
          (rw (q, consume_loop, consumed_tally n m k (omega arith)) at h))
    | fails e x v y w g q ↦ unhandled_first c r rs n m k a z e x v y w g (
        loop-Acknowledged rs (count_failed c) n (suc m) k a z (omega arith)
          (rw (q, consume_loop, failed_tally n m k (omega arith)) at h))
  ]

  -- On a script of fewer than 2 ^ 63 rounds, a response is only sent when the script is drained,
  -- and not by the filter alone. It says how many events the callback took and how many it failed,
  -- with one summary for each failure up to eight, and no text of the callback's.
  pub consume_acknowledged :
      (rs : List Round) (c : Consumer) (a : Response) (z : Option Error)
      → length rs < 2 ^ 63
      → (consume fce rs c).1 ≡ some (responds a z)
      → (n : ℕ) × (m : ℕ) × (k : ℕ) × Drains c.input_type_set c.has_handler rs n m k z
        × (a ≡ response n m)
        × ((k ≡ 0) ⊎ (0 < n + m))
  unfolding consume
  consume_acknowledged rs c a z b h =
      let (n, m, k, d, i, l) = loop-Acknowledged rs c 0 0 0 a z (omega arith) h in
      (n, m, k, d, response_eq i (omega arith) (omega arith), ground (arith, l))
