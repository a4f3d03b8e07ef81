-- ===== src/Base/Dict.antt =====
-- A Go map with text keys, as an association list with at most one entry for a key. A loop over a
-- map reads the entries in the list's order; results that depend on the order are not stated.
use Prim.Native.String.{String}
use mathlib.Core.Path.{◌≡◌, refl}
use mathlib.Core.List.{List, [], ◌∷◌}
use mathlib.Core.Option as O
use mathlib.Core.Option.{Option, none, some}
use native.Mathlib.Omega.{arith}
use text.Mathlib.Text.{◌==◌}
use text.Mathlib.TextEquality.{eq_iff}
use text.Mathlib.TextPositions.{eq_refl}
use flowctl_sdk.Base.Tests.{if◌then◌else◌, or_else}

abbrev pub Dict {ℓ} : Type ℓ → Type ℓ
Dict V = List (String × V)

module _ {ℓ} {V : Type ℓ} where
  -- `m[k]` with its second result.
  unfoldable pub get : String → Dict V → Option V
  get k [] = none
  get k ((j, v) ∷ m) = if j == k then some v else get k m

  -- `m[k] = v`.
  unfoldable pub put : String → V → Dict V → Dict V
  put k v [] = (k, v) ∷ []
  put k v ((j, w) ∷ m) = if j == k then (k, v) ∷ m else (j, w) ∷ put k v m

  -- `for k, v := range src { dst[k] = v }`.
  unfoldable pub merge : Dict V → Dict V → Dict V
  merge dst [] = dst
  merge dst ((k, v) ∷ src) = merge (put k v dst) src

  -- No key has two entries.
  abbrev pub IsDict : Dict V → Type ℓ
  IsDict [] = Unit
  IsDict ((k, v) ∷ m) = (get k m ≡ none) × IsDict m

  pub get-put :
      (k j : String) (v : V) (m : Dict V) → get j (put k v m) ≡ (if k == j then some v else get j m)
  unfolding get put
  get-put k j v [] = refl
  get-put k j v ((i, w) ∷ m) = ground (arith, eq_iff k j, eq_iff i k, eq_iff i j, get-put k j v m)

  pub get-put_self : (k : String) (v : V) (m : Dict V) → get k (put k v m) ≡ some v
  get-put_self k v m = simp (get-put, eq_refl)

  -- Writing what a key has already changes nothing.
  pub put-same : (k : String) (v : V) (m : Dict V) → get k m ≡ some v → put k v m ≡ m
  unfolding get put
  put-same k v [] h = cc
  put-same k v ((j, w) ∷ m) h = ground (arith, eq_iff j k, put-same k v m)

  pub put-IsDict : (k : String) (v : V) (m : Dict V) → IsDict m → IsDict (put k v m)
  unfolding get put
  put-IsDict k v [] h = ground arith
  put-IsDict k v ((j, w) ∷ m) h =
      ground (arith, eq_iff j k, eq_iff k j, get-put k j v m, put-IsDict k v m h.1)

  pub merge-IsDict : (dst src : Dict V) → IsDict dst → IsDict (merge dst src)
  unfolding merge
  merge-IsDict dst [] h = h
  merge-IsDict dst ((k, v) ∷ src) h = merge-IsDict (put k v dst) src (put-IsDict k v dst h)

  -- The second map wins.
  pub get-merge :
      (j : String) (dst src : Dict V)
      → IsDict src
      → get j (merge dst src) ≡ or_else (get j src) (get j dst)
  unfolding get merge
  get-merge j dst [] h = refl
  get-merge j dst ((k, v) ∷ src) h =
      ground (arith, get-merge j (put k v dst) src h.1, get-put k j v dst, eq_iff k j)

module _ {ℓ κ} {V : Type ℓ} {W : Type κ} (f : V → W) where
  -- `for k, v := range src { dst[k] = f(v) }`.
  unfoldable pub merge_with : Dict W → Dict V → Dict W
  merge_with dst [] = dst
  merge_with dst ((k, v) ∷ src) = merge_with (put k (f v) dst) src

  pub get-merge_with :
      (j : String) (dst : Dict W) (src : Dict V)
      → IsDict src
      → get j (merge_with dst src) ≡ or_else (O.map f (get j src)) (get j dst)
  unfolding get merge_with
  get-merge_with j dst [] h = refl
  get-merge_with j dst ((k, v) ∷ src) h =
      ground (arith, get-merge_with j (put k (f v) dst) src h.1, get-put k j (f v) dst, eq_iff k j)
