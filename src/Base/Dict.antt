-- ===== src/Base/Dict.antt =====
-- A Python dict keyed by text, as an association list in insertion order.
use Prim.Native.String.{String}
use mathlib.Core.Path.{◌≡◌, refl}
use mathlib.Core.Bool.{Bool}
use mathlib.Core.Bool.{false}
use mathlib.Core.Logic.{◌≢◌}
use mathlib.Core.Option.{Option, none, some}
use mathlib.Core.List.{List, [], ◌∷◌}
use native.Mathlib.Omega.{arith}
use text.Mathlib.Text.{◌==◌}
use text.Mathlib.TextEquality.{eq_iff}
use gads_write_mcp.Base.Tests.{if◌then◌else◌}
use gads_write_mcp.Base.Lists.{length}
use Prim.Native.Nat.{◌+◌, ◌≤◌}

pub str_eq_of_ne : (s t : String) → s ≢ t → (s == t) ≡ false
str_eq_of_ne s t h = ground (arith, eq_iff s t)

abbrev pub Dict {ℓ} : Type ℓ → Type ℓ
Dict V = List (String × V)

module _ {ℓ} {V : Type ℓ} where
  unfoldable pub lookup : String → Dict V → Option V
  lookup k [] = none
  lookup k ((j, v) ∷ d) = if j == k then some v else lookup k d

  -- `d[k] = v`
  unfoldable pub insert : String → V → Dict V → Dict V
  insert k v [] = (k, v) ∷ []
  insert k v ((j, w) ∷ d) = if j == k then (j, v) ∷ d else (j, w) ∷ insert k v d

  pub lookup-insert :
      (k j : String) (v : V) (d : Dict V)
      → lookup j (insert k v d) ≡ (if k == j then some v else lookup j d)
  unfolding lookup insert
  lookup-insert k j v [] = refl
  lookup-insert k j v ((i, w) ∷ d) =
      ground (arith, eq_iff k j, eq_iff i k, eq_iff i j, lookup-insert k j v d)

  -- A write adds one entry at most.
  pub length-insert-le : (k : String) (v : V) (d : Dict V) → length (insert k v d) ≤ length d + 1
  unfolding insert
  length-insert-le k v [] = omega arith
  length-insert-le k v ((j, w) ∷ d) = ground (arith, length-insert-le k v d)

  -- `{k: v for k, v in d.items() if keep(v)}`, and `del` of the entries whose value fails the test.
  unfoldable pub filter_values : (V → Bool) → Dict V → Dict V
  filter_values keep [] = []
  filter_values keep ((j, v) ∷ d) =
      let rest = filter_values keep d in if keep v then (j, v) ∷ rest else rest

  -- No key stands twice.
  abbrev pub HasDistinctKeys : Dict V → Type ℓ
  HasDistinctKeys [] = Unit
  HasDistinctKeys ((j, v) ∷ d) = (lookup j d ≡ none) × HasDistinctKeys d

  pub length-filter_values-le :
      (keep : V → Bool) (d : Dict V) → length (filter_values keep d) ≤ length d
  unfolding filter_values
  length-filter_values-le keep [] = omega arith
  length-filter_values-le keep ((j, v) ∷ d) = ground (arith, length-filter_values-le keep d)

  pub lookup-filter_values-none :
      (keep : V → Bool) (k : String) (d : Dict V)
      → lookup k d ≡ none
      → lookup k (filter_values keep d) ≡ none
  unfolding filter_values lookup
  lookup-filter_values-none keep k [] h = refl
  lookup-filter_values-none keep k ((j, v) ∷ d) h =
      ground (arith, lookup-filter_values-none keep k d)

  abbrev pub keep_value : (V → Bool) → Option V → Option V
  keep_value keep none = none
  keep_value keep (some v) = if keep v then some v else none

  -- A filtered dict holds exactly the entries that pass.
  pub lookup-filter_values :
      (keep : V → Bool) (k : String) (d : Dict V)
      → HasDistinctKeys d
      → lookup k (filter_values keep d) ≡ keep_value keep (lookup k d)
  unfolding filter_values lookup
  lookup-filter_values keep k [] h = refl
  lookup-filter_values keep k ((j, v) ∷ d) (fresh, h) =
      ground (
        arith,
        eq_iff j k,
        lookup-filter_values keep k d h,
        lookup-filter_values-none keep j d fresh,
      )

  pub filter_values-HasDistinctKeys :
      (keep : V → Bool) (d : Dict V) → HasDistinctKeys d → HasDistinctKeys (filter_values keep d)
  unfolding filter_values
  filter_values-HasDistinctKeys keep [] h = tt
  filter_values-HasDistinctKeys keep ((j, v) ∷ d) (fresh, h) =
      ground
        (arith, lookup-filter_values-none keep j d fresh, filter_values-HasDistinctKeys keep d h)

  pub insert-HasDistinctKeys :
      (k : String) (v : V) (d : Dict V) → HasDistinctKeys d → HasDistinctKeys (insert k v d)
  unfolding insert lookup
  insert-HasDistinctKeys k v [] h = (refl, tt)
  insert-HasDistinctKeys k v ((j, w) ∷ d) (fresh, h) =
      ground (arith, eq_iff j k, eq_iff k j, lookup-insert k j v d, insert-HasDistinctKeys k v d h)

  -- A write over a key that is there adds none.
  pub length-insert_old :
      (k : String) (v w : V) (d : Dict V) → lookup k d ≡ some w → length (insert k v d) ≡ length d
  unfolding insert lookup
  length-insert_old k v w [] h = cc
  length-insert_old k v w ((j, u) ∷ d) h = ground (arith, length-insert_old k v w d)
