-- ===== src/Prelude/Texts.antt =====
-- Python's `str` and `bytes` as lists of code points and of bytes, with equality and membership.
use Prim.Native.Nat.{ℕ, suc, ◌+◌}
use Prim.Native.Char.{code}
use Prim.Native.String.{String}
use mathlib.Core.Path.{◌≡◌, refl}
use mathlib.Core.Logic.{◌≢◌, ◌↔◌}
use mathlib.Core.Bool.{Bool, true, false, ◌&&◌, ◌||◌}
use mathlib.Core.List.{List, [], ◌∷◌, ◌++◌, append_cancel_left}
use native.Mathlib.Omega.{arith}
use civ4_turn_relay.Prelude.Tests.{◌==◌, if◌then◌else◌}

abbrev pub Text : Type 0
Text = List ℕ

abbrev pub Bytes : Type 0
Bytes = List ℕ

-- The code points of a literal.
abbrev pub codes : String → Text
codes String.[] = []
codes (String.◌∷◌ c s) = code c ∷ codes s

-- `a == b`
unfoldable pub text_eq : Text → Text → Bool
text_eq [] [] = true
text_eq [] (b ∷ bs) = false
text_eq (a ∷ as') [] = false
text_eq (a ∷ as') (b ∷ bs) = a == b && text_eq as' bs

eq_of_text_eq : (a b : Text) → text_eq a b ≡ true → a ≡ b
unfolding text_eq
eq_of_text_eq [] [] h = refl
eq_of_text_eq [] (b ∷ bs) h = ground arith
eq_of_text_eq (a ∷ as') [] h = ground arith
eq_of_text_eq (a ∷ as') (b ∷ bs) h = ground (arith, eq_of_text_eq as' bs)

pub text_eq_self : (a : Text) → text_eq a a ≡ true
unfolding text_eq
text_eq_self [] = refl
text_eq_self (a ∷ as') = ground (arith, text_eq_self as')

pub text_eq_iff : (a b : Text) → (text_eq a b ≡ true) ↔ (a ≡ b)
text_eq_iff a b = (eq_of_text_eq a b, λ e. rw e (text_eq_self b))

pub text_eq-ne : (a b : Text) → a ≢ b → text_eq a b ≡ false
text_eq-ne a b h = ground (arith, text_eq_iff a b)

-- `a in xs`
unfoldable pub contains : List Text → Text → Bool
contains [] a = false
contains (x ∷ xs) a = text_eq x a || contains xs a

-- `a.startswith(b)`
unfoldable pub starts_with : Text → Text → Bool
starts_with a [] = true
starts_with [] (b ∷ bs) = false
starts_with (a ∷ as') (b ∷ bs) = a == b && starts_with as' bs

-- Two texts with one beginning differ if their rests do.
pub append-ne : (p a b : Text) → a ≢ b → p ++ a ≢ p ++ b
append-ne p a b h e = h (append_cancel_left p a b e)

-- How often a text stands in a list.
unfoldable pub count : Text → List Text → ℕ
count t [] = 0
count t (x ∷ xs) = let rest = count t xs in if text_eq x t then suc rest else rest

pub count-append : (t : Text) (xs ys : List Text) → count t (xs ++ ys) ≡ count t xs + count t ys
unfolding count
count-append t [] ys = ground arith
count-append t (x ∷ xs) ys = ground (arith, count-append t xs ys)
