-- ===== src/Tests/Codec.antt =====
-- A codec for the values of domain/serialization.py that reads back what it wrote: it stands for
-- `json` in the tests. A document is a program for a stack of values.
use civ4_turn_relay.Prelude.{
  ℕ, ◌==◌, if◌then◌else◌, ◌≡◌, refl, ◌∙◌, true, false, Option, none, some, List, [], ◌∷◌, Bytes,
}
use civ4_turn_relay.Domain.Json.{
  Value, null, boolean, integer, negative, real, string, array, object, Items, nil, cons, Fields,
  end, field,
}

-- An instruction of the program; each has one argument.
pub data Instruction : Type 0 where
  push_null push_true push_false push_integer push_negative push_string add_char push_real add_byte
        push_array add_item push_object add_field :
      Instruction

abbrev pub instruction : ℕ → Instruction
instruction n =
    if n == 0
    then push_null
    else if n == 1
    then push_true
    else if n == 2
    then push_false
    else if n == 3
    then push_integer
    else if n == 4
    then push_negative
    else if n == 5
    then push_string
    else if n == 6
    then add_char
    else if n == 7
    then push_real
    else if n == 8
    then add_byte
    else if n == 9
    then push_array
    else if n == 10
    then add_item
    else if n == 11
    then push_object
    else add_field

abbrev pub execute : Instruction → ℕ → List Value → Option (List Value)
execute push_null a st = some (null ∷ st)
execute push_true a st = some (boolean true ∷ st)
execute push_false a st = some (boolean false ∷ st)
execute push_integer n st = some (integer n ∷ st)
execute push_negative n st = some (negative n ∷ st)
execute push_string a st = some (string [] ∷ st)
execute add_char c (string s ∷ st) = some (string (c ∷ s) ∷ st)
execute push_real a st = some (real [] ∷ st)
execute add_byte c (real b ∷ st) = some (real (c ∷ b) ∷ st)
execute push_array a st = some (array nil ∷ st)
execute add_item a (v ∷ array vs ∷ st) = some (array (cons v vs) ∷ st)
execute push_object a st = some (object end ∷ st)
execute add_field a (v ∷ string t ∷ object fs ∷ st) = some (object (field t v fs) ∷ st)
execute _ a st = none

abbrev pub write_string : List ℕ → List ℕ → List ℕ
write_string [] k = 5 ∷ 0 ∷ k
write_string (c ∷ cs) k = write_string cs (6 ∷ c ∷ k)

abbrev pub write_real : List ℕ → List ℕ → List ℕ
write_real [] k = 7 ∷ 0 ∷ k
write_real (c ∷ cs) k = write_real cs (8 ∷ c ∷ k)

-- The document of a value, in front of `k`.
unfoldable mutual
  pub write : Value → List ℕ → List ℕ
  write null k = 0 ∷ 0 ∷ k
  write (boolean true) k = 1 ∷ 0 ∷ k
  write (boolean false) k = 2 ∷ 0 ∷ k
  write (integer n) k = 3 ∷ n ∷ k
  write (negative n) k = 4 ∷ n ∷ k
  write (real b) k = write_real b k
  write (string s) k = write_string s k
  write (array vs) k = write_items vs k
  write (object fs) k = write_fields fs k

  pub write_items : Items → List ℕ → List ℕ
  write_items nil k = 9 ∷ 0 ∷ k
  write_items (cons v vs) k = write_items vs (write v (10 ∷ 0 ∷ k))

  pub write_fields : Fields → List ℕ → List ℕ
  write_fields end k = 11 ∷ 0 ∷ k
  write_fields (field t v fs) k = write_fields fs (write_string t (write v (12 ∷ 0 ∷ k)))

abbrev pub alone : List Value → Option Value
alone (v ∷ []) = some v
alone _ = none

unfoldable pub read : List ℕ → List Value → Option Value
read [] st = alone st
read (i ∷ []) st = none
read (i ∷ a ∷ k) st = elim (execute (instruction i) a st) [ none ↦ none | some st' ↦ read k st' ]

abbrev pub dumps : Value → Bytes
dumps v = write v []

abbrev pub loads : Bytes → Option Value
loads b = read b []

read-string : (s k : List ℕ) (st : List Value) → read (write_string s k) st ≡ read k (string s ∷ st)
unfolding read
read-string [] k st = refl
read-string (c ∷ cs) k st = read-string cs (6 ∷ c ∷ k) st

read-real : (s k : List ℕ) (st : List Value) → read (write_real s k) st ≡ read k (real s ∷ st)
unfolding read
read-real [] k st = refl
read-real (c ∷ cs) k st = read-real cs (8 ∷ c ∷ k) st

mutual
  unfolding read write write_items write_fields

  read-write : (v : Value) (k : List ℕ) (st : List Value) → read (write v k) st ≡ read k (v ∷ st)
  read-write null k st = refl
  read-write (boolean true) k st = refl
  read-write (boolean false) k st = refl
  read-write (integer n) k st = refl
  read-write (negative n) k st = refl
  read-write (real b) k st = read-real b k st
  read-write (string s) k st = read-string s k st
  read-write (array vs) k st = read-items vs k st
  read-write (object fs) k st = read-fields fs k st

  read-items :
      (vs : Items) (k : List ℕ) (st : List Value)
      → read (write_items vs k) st ≡ read k (array vs ∷ st)
  read-items nil k st = refl
  read-items (cons v vs) k st =
      read-items vs (write v (10 ∷ 0 ∷ k)) st ∙ read-write v (10 ∷ 0 ∷ k) (array vs ∷ st)

  read-fields :
      (fs : Fields) (k : List ℕ) (st : List Value)
      → read (write_fields fs k) st ≡ read k (object fs ∷ st)
  read-fields end k st = refl
  read-fields (field t v fs) k st =
      read-fields fs (write_string t (write v (12 ∷ 0 ∷ k))) st
      ∙ (read-string t (write v (12 ∷ 0 ∷ k)) (object fs ∷ st)
          ∙ read-write v (12 ∷ 0 ∷ k) (string t ∷ object fs ∷ st))

pub loads-dumps : (v : Value) → loads (dumps v) ≡ some v
unfolding read
loads-dumps v = read-write v [] []
