-- ===== src/Prelude/Tests.antt =====
-- Boolean tests, the conditional, `len` and `in` of the program's lists, and the case lemmas.
use Prim.Native.Nat.{ℕ, suc, compare, Ordering}
use mathlib.Core.Path.{◌≡◌, refl}
use mathlib.Core.Logic.{◌⊎◌, inl, inr}
use mathlib.Core.Bool.{Bool, true, false}
use mathlib.Core.Option.{Option, none, some}
use mathlib.Core.List.{List, [], ◌∷◌}

abbrev pub ltb : ℕ → ℕ → Bool
ltb a b = elim (compare a b) [ Ordering.lt ↦ true | _ ↦ false ]

abbrev pub leb : ℕ → ℕ → Bool
leb a b = elim (compare a b) [ Ordering.gt ↦ false | _ ↦ true ]

infix 50 ◌==◌
abbrev pub ◌==◌ : ℕ → ℕ → Bool
a == b = elim (compare a b) [ Ordering.eq ↦ true | _ ↦ false ]

infix 1 if◌then◌else◌
abbrev pub if◌then◌else◌ {ℓ} : {A : Type ℓ} → Bool → A → A → A
if true then x else y = x
if false then x else y = y

pub Bool-cases : (b : Bool) → (b ≡ true) ⊎ (b ≡ false)
Bool-cases true = inl refl
Bool-cases false = inr refl

pub Option-cases {ℓ} : {A : Type ℓ} (o : Option A) → (o ≡ none) ⊎ ((a : A) × (o ≡ some a))
Option-cases none = inl refl
Option-cases (some a) = inr (a, refl)

-- `x is not None`
abbrev pub is_some {ℓ} : {A : Type ℓ} → Option A → Bool
is_some none = false
is_some (some _) = true

module _ {ℓ} {A : Type ℓ} where
  -- `len(xs)`
  abbrev pub length : List A → ℕ
  length [] = 0
  length (x ∷ xs) = suc (length xs)

  -- `xs[-1]`, where the list is not empty
  abbrev pub get_last? : List A → Option A
  get_last? [] = none
  get_last? (x ∷ []) = some x
  get_last? (x ∷ y ∷ ys) = get_last? (y ∷ ys)
