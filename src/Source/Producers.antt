-- ===== src/Source/Producers.antt =====
-- Which producers a source of pkg/source/source.go can have.
use flowctl_sdk.Base.{
  ℕ, ◌≡◌, refl, true, List, [], ◌∷◌, Option, none, is_some, String, ◌⊎◌, inl, arith,
}
use flowctl_sdk.Flowctl.Metrics.{Floats}
use flowctl_sdk.Service.{Surroundings}
use flowctl_sdk.Source.Config as C
use flowctl_sdk.Source.{Source, new, on_produce, on_produce_stream, start, stop}

-- The calls that a user of a source makes before and between its streams.
pub data Call : Type 0 where
  produces produces_stream : Option ℕ → Call
  starts stops : Surroundings → Call

module _ {F : Type 0} where
  pub apply : Call → Source F → Source F
  apply (produces p) s = (on_produce p s).0
  apply (produces_stream p) s = (on_produce_stream p s).0
  apply (starts w) s = (start w s).0
  apply (stops w) s = (stop w s).0

  pub run : List Call → Source F → Source F
  run [] s = s
  run (c ∷ cs) s = run cs (apply c s)

  -- Never both kinds of producers.
  abbrev pub HasOneKind : Source F → Type 0
  HasOneKind s = (s.producer ≡ none) ⊎ (s.stream_producer ≡ none)

  apply-HasOneKind : (c : Call) (s : Source F) → HasOneKind s → HasOneKind (apply c s)
  unfolding apply on_produce on_produce_stream start stop
  apply-HasOneKind (produces p) s h = ground arith
  apply-HasOneKind (produces_stream p) s h = ground arith
  apply-HasOneKind (starts w) s h = ground arith
  apply-HasOneKind (stops w) s h = ground arith

  run-HasOneKind : (cs : List Call) (s : Source F) → HasOneKind s → HasOneKind (run cs s)
  unfolding run
  run-HasOneKind [] s h = h
  run-HasOneKind (c ∷ cs) s h = run-HasOneKind cs (apply c s) (apply-HasOneKind c s h)

  -- A producer once set stays set, of the same kind.
  apply-keeps_kind :
      (c : Call) (s : Source F)
      → (is_some s.producer ≡ true → is_some (apply c s).producer ≡ true)
        × (is_some s.stream_producer ≡ true → is_some (apply c s).stream_producer ≡ true)
  unfolding apply on_produce on_produce_stream start stop
  apply-keeps_kind (produces p) s = ground arith
  apply-keeps_kind (produces_stream p) s = ground arith
  apply-keeps_kind (starts w) s = ground arith
  apply-keeps_kind (stops w) s = ground arith

module _ (fl : Floats) where
  open fl use {F}

  -- Over any calls on a new source, an old and a stream producer are never both configured.
  pub one_producer :
      (now : ℕ) (generated stamp : String) (given : Option C.Config) (cs : List Call)
      → HasOneKind (run cs (new fl now generated stamp given))
  unfolding new
  one_producer now generated stamp given cs = run-HasOneKind cs _ (inl refl)
