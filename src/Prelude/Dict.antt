-- ===== src/Prelude/Dict.antt =====
-- Python's `dict` and `set` with text keys, as lists of entries. No modelled code depends on their
-- order but for a listing, which sorts.
use mathlib.Core.Path.{◌≡◌, refl}
use mathlib.Core.Bool.{false}
use mathlib.Core.Option.{Option, none, some}
use mathlib.Core.List.{List, [], ◌∷◌}
use native.Mathlib.Omega.{arith}
use civ4_turn_relay.Prelude.Tests.{if◌then◌else◌}
use civ4_turn_relay.Prelude.Texts.{Text, text_eq, text_eq_iff, contains}

abbrev pub Dict {ℓ} : Type ℓ → Type ℓ
Dict V = List (Text × V)

module _ {ℓ} {V : Type ℓ} where
  -- `d.get(k)`
  unfoldable pub lookup : Text → Dict V → Option V
  lookup k [] = none
  lookup k ((j, v) ∷ d) = if text_eq j k then some v else lookup k d

  -- `del d[k]`, `d.pop(k, None)`
  unfoldable pub remove : Text → Dict V → Dict V
  remove k [] = []
  remove k ((j, v) ∷ d) = let rest = remove k d in if text_eq j k then rest else (j, v) ∷ rest

  -- `d[k] = v`
  unfoldable pub insert : Text → V → Dict V → Dict V
  insert k v d = (k, v) ∷ remove k d

  pub lookup-remove :
      (k j : Text) (d : Dict V) → lookup j (remove k d) ≡ (if text_eq k j then none else lookup j d)
  unfolding lookup remove
  lookup-remove k j [] = ground arith
  lookup-remove k j ((i, v) ∷ d) =
      ground (arith, lookup-remove k j d, text_eq_iff i k, text_eq_iff i j, text_eq_iff k j)

  pub lookup-insert :
      (k j : Text) (v : V) (d : Dict V)
      → lookup j (insert k v d) ≡ (if text_eq k j then some v else lookup j d)
  unfolding lookup insert
  lookup-insert k j v d = ground (arith, lookup-remove k j d)

-- `s.remove(k)` of a set
unfoldable pub discard : Text → List Text → List Text
discard k [] = []
discard k (j ∷ s) = let rest = discard k s in if text_eq j k then rest else j ∷ rest

pub contains-discard :
    (k j : Text) (s : List Text)
    → contains (discard k s) j ≡ (if text_eq k j then false else contains s j)
unfolding contains discard
contains-discard k j [] = ground arith
contains-discard k j (i ∷ s) =
    ground (arith, contains-discard k j s, text_eq_iff i k, text_eq_iff i j, text_eq_iff k j)

pub lookup-empty {ℓ} : {V : Type ℓ} (k : Text) → lookup {V = V} k [] ≡ none
unfolding lookup
lookup-empty k = refl
