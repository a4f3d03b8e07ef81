-- ===== src/Flowctl/Metrics/Snapshot.antt =====
-- What pkg/flowctl/metrics.go's GetMetrics reports under each key.
use Prim.Native.Char.{code}
use Prim.Native.String.append
use mathlib.Core.Option as O
use text.Mathlib.TextLemmas.{append_cancel_left}
use flowctl_sdk.Base.{
  ℕ, ◌≡◌, refl, ap, ◌≢◌, false, [], ◌∷◌, Option, none, some, String, ◌<>◌, sym, str_eq, eq_iff,
  or_else, or_else-none, arith, ◌∙◌, ◌⊎◌, inl, inr,
}
use flowctl_sdk.Base.Dict.{Dict, get, put, get-put, IsDict}
use flowctl_sdk.Flowctl.Metrics.{
  Floats, MetricValue, int64, float64, Metrics, add_custom, get_metrics, standard_metrics,
}

-- The first character of a text tells the three kinds of keys apart.
lead : String → Option ℕ
lead String.[] = none
lead (String.◌∷◌ c s) = some (code c)

lead-append : (s t : String) → lead (s <> t) ≡ or_else (lead s) (lead t)
unfolding lead
lead-append String.[] t = rw append.nil
lead-append (String.◌∷◌ c s) t = rw append.cons

apart : (s t : String) → lead s ≢ lead t → str_eq s t ≡ false
apart s t h = ground (arith, eq_iff s t, h)

prefixes_apart : (k n : String) → lead ("gauge_" <> k) ≢ lead ("counter_" <> n)
unfolding lead
prefixes_apart k n = rw (lead-append "gauge_" k, lead-append "counter_" n) (λ q. ground arith)

module _ {F V : Type 0} (p : String) (wrap : V → MetricValue F) where
  -- A key that the prefix does not begin is left as it was.
  get-add_custom_other :
      (j : String) (out : Dict (MetricValue F)) (d : Dict V)
      → ((n : String) → str_eq (p <> n) j ≡ false)
      → get j (add_custom p wrap out d) ≡ get j out
  unfolding add_custom
  get-add_custom_other j out [] h = refl
  get-add_custom_other j out ((n, v) ∷ d) h =
      get-add_custom_other j (put (p <> n) (wrap v) out) d h
      ∙ rw (get-put (p <> n) j (wrap v) out, h n)

  str_eq-prefix : (n k : String) → str_eq (p <> n) (p <> k) ≡ str_eq n k
  str_eq-prefix n k = ground (
    arith,
    eq_iff (p <> n) (p <> k),
    eq_iff n k,
    append_cancel_left p n k,
    λ (e : n ≡ k). ap (λ t. p <> t) e,
  )

  -- A key behind the prefix has the custom value, where there is one.
  get-add_custom :
      (k : String) (out : Dict (MetricValue F)) (d : Dict V)
      → IsDict d
      → get (p <> k) (add_custom p wrap out d) ≡ or_else (O.map wrap (get k d)) (get (p <> k) out)
  unfolding add_custom get
  get-add_custom k out [] h = refl
  get-add_custom k out ((n, v) ∷ d) h = ground (
    arith,
    get-add_custom k (put (p <> n) (wrap v) out) d h.1,
    get-put (p <> n) (p <> k) (wrap v) out,
    str_eq-prefix n k,
    eq_iff n k,
  )

module _ (fl : Floats) (now : ℕ) (m : Metrics fl.F) where
  get_metrics_plain :
      (j : String) {c : ℕ}
      → lead j ≡ some c
      → c ≢ b'c'
      → c ≢ b'g'
      → get j (get_metrics fl now m) ≡ get j (standard_metrics fl now m)
  unfolding get_metrics lead
  get_metrics_plain j e hc hg =
      get-add_custom_other "gauge_" float64 j _ m.gauges
        (λ n. apart _ j (rw (lead-append "gauge_" n, e) (λ q. hg (ground arith))))
      ∙ get-add_custom_other "counter_" int64 j _ m.counters
          (λ n. apart _ j (rw (lead-append "counter_" n, e) (λ q. hc (ground arith))))

  unprefixed :
      (p n : String) {c : ℕ}
      → lead p ≡ some c
      → (c ≡ b'c') ⊎ (c ≡ b'g')
      → get (p <> n) (standard_metrics fl now m) ≡ none
  unfolding standard_metrics get lead
  unprefixed p n {c} e h = ground (
    arith,
    differs "processed_count",
    differs "error_count",
    differs "success_count",
    differs "processing_latency",
    differs "last_update_time",
    differs "uptime_seconds",
  )
    where
      starts : lead (p <> n) ≡ some c
      starts = rw (lead-append p n, e)

      differs : (j : String) → lead j ≢ some c → str_eq j (p <> n) ≡ false
      differs j d = apart j (p <> n) (λ q. d (q ∙ starts))

  -- Where no custom counter or gauge has two entries, each is reported under its own key, also
  -- when it is named like a standard metric or like one of the other kind, and the standard counts
  -- and the latency keep their keys.
  pub get_metrics_lookup :
      IsDict m.counters
      → IsDict m.gauges
      → ((n : String)
          → get ("counter_" <> n) (get_metrics fl now m) ≡ O.map int64 (get n m.counters))
        × ((n : String)
            → get ("gauge_" <> n) (get_metrics fl now m) ≡ O.map float64 (get n m.gauges))
        × (get "processed_count" (get_metrics fl now m) ≡ some (int64 m.processed_count))
        × (get "error_count" (get_metrics fl now m) ≡ some (int64 m.error_count))
        × (get "success_count" (get_metrics fl now m) ≡ some (int64 m.success_count))
        × (get "processing_latency" (get_metrics fl now m) ≡ some (float64 m.processing_latency))
  unfolding get_metrics standard_metrics get lead
  get_metrics_lookup hc hg = (
    λ n.
        get-add_custom_other "gauge_" float64 ("counter_" <> n) _ m.gauges
          (λ k. apart _ _ (prefixes_apart k n))
        ∙ get-add_custom "counter_" int64 n _ m.counters hc
        ∙ rw (unprefixed "counter_" n refl (inl refl)) (or_else-none _),
    λ n.
        get-add_custom "gauge_" float64 n _ m.gauges hg
        ∙ rw
            (
              get-add_custom_other "counter_" int64 ("gauge_" <> n) _ m.counters
                  (λ k. apart _ _ (λ q. prefixes_apart n k (sym q))),
              unprefixed "gauge_" n refl (inr refl),
            )
            (or_else-none _),
    get_metrics_plain "processed_count" refl (omega arith) (omega arith),
    get_metrics_plain "error_count" refl (omega arith) (omega arith),
    get_metrics_plain "success_count" refl (omega arith) (omega arith),
    get_metrics_plain "processing_latency" refl (omega arith) (omega arith),
  )
