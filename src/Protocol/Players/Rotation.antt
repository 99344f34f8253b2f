-- ===== src/Protocol/Players/Rotation.antt =====
-- protocol/players.py: the next player goes round the table.
use native.Mathlib.Nat.{mod-eq_of_lt, mod-add-mod}
use civ4_turn_relay.Prelude.{
  sym, ◌∙◌, ap, ℕ, zero, suc, ◌+◌, ◌%◌, ◌<◌, ◌≡◌, length, true, Option, some, List, [], ◌∷◌, Text,
  arith, text_eq, text_eq_iff, contains, Bool-cases, inl, inr,
}
use civ4_turn_relay.Prelude.Maybe.{◌>>=◌}
use civ4_turn_relay.Domain.Manifest.{all_distinct}
use civ4_turn_relay.Protocol.Players.{index, get_elem?, after}

-- A place in the list has an entry, which the list contains.
get_elem?-contains :
    (xs : List Text) (i : ℕ) (x : Text) → get_elem? xs i ≡ some x → contains xs x ≡ true
unfolding get_elem? contains
get_elem?-contains [] i x h = cc
get_elem?-contains (y ∷ ys) zero x h = ground (arith, text_eq_iff y x)
get_elem?-contains (y ∷ ys) (suc i) x h = ground (arith, get_elem?-contains ys i x h)

get_elem?-total : (xs : List Text) (i : ℕ) → i < length xs → (x : Text) × (get_elem? xs i ≡ some x)
unfolding get_elem?
get_elem?-total [] i h = elim h [ ]
get_elem?-total (y ∷ ys) zero h = (y, ground arith)
get_elem?-total (y ∷ ys) (suc i) h = get_elem?-total ys i (omega arith)

-- `index` is total on the members, and finds a place below the length that holds the member.
index-total :
    (xs : List Text) (x : Text)
    → contains xs x ≡ true
    → (i : ℕ) × (index xs x ≡ some i) × (i < length xs) × (get_elem? xs i ≡ some x)
unfolding index contains get_elem?
index-total [] x h = cc
index-total (y ∷ ys) x h = elim (Bool-cases (text_eq y x)) [
  | inl e ↦ (zero, ground arith, omega arith, ground (arith, text_eq_iff y x))
  | inr n ↦
      let (i, found, bound, at) = index-total ys x (ground arith) in
      (suc i, rw (n, found), omega arith, at)
]

-- In a list with no entry twice, the index of an entry is its place.
index-get_elem? :
    (xs : List Text) (i : ℕ) (x : Text)
    → all_distinct xs ≡ true
    → get_elem? xs i ≡ some x
    → index xs x ≡ some i
unfolding index get_elem? all_distinct
index-get_elem? [] i x d h = cc
index-get_elem? (y ∷ ys) zero x d h = ground (arith, text_eq_iff y x)
index-get_elem? (y ∷ ys) (suc i) x d h =
    ground (arith, index-get_elem? ys i x, get_elem?-contains ys i x h, text_eq_iff y x)

-- `n` handoffs in a row, each to the player after the one before.
pub relay : List Text → ℕ → Text → Option Text
relay ids zero player = some player
relay ids (suc n) player = do next ← after ids player; relay ids n next

-- In a list with no player twice, `n` handoffs in a row that begin with the player at place `i` come to
-- the player `n` places further on, round the table: each handoff moves the turn by one place, and after
-- the last player comes the first.
pub relay-place :
    (ids : List Text) (n i : ℕ) (player : Text)
    → all_distinct ids ≡ true
    → i < length ids
    → get_elem? ids i ≡ some player
    → relay ids n player ≡ get_elem? ids ((i + n) % length ids)
unfolding relay after
relay-place ids zero i player d bound at =
    sym at ∙ ap (get_elem? ids) (sym (mod-eq_of_lt bound) ∙ ap (λ k. k % length ids) (omega arith))
relay-place ids (suc n) i player d bound at =
    let j = (i + 1) % length ids in
    let small : j < length ids = grind arith in
    let (next, e) = get_elem?-total ids j small in
    rw (index-get_elem? ids i player d at, e)
      (relay-place ids n j next d small e
        ∙ ap (get_elem? ids)
            (mod-add-mod (i + 1) (length ids) n ∙ ap (λ k. k % length ids) (omega arith)))
