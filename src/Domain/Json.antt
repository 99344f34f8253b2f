-- ===== src/Domain/Json.antt =====
-- The values that `json.loads` gives for a document, with an object as its list of pairs: what
-- `_object_pairs_marker` of domain/serialization.py keeps, duplicate keys included.
use civ4_turn_relay.Prelude.{ℕ, Bool, List, [], ◌∷◌, Text, Bytes}

mutual
  -- `real` is a number with a fraction or an exponent.
  pub data Value : Type 0 where
    null : Value
    boolean : Bool → Value
    integer : ℕ → Value
    negative : ℕ → Value
    real : Bytes → Value
    string : Text → Value
    array : Items → Value
    object : Fields → Value

  pub data Items : Type 0 where
    nil : Items
    cons : Value → Items → Items

  pub data Fields : Type 0 where
    end : Fields
    field : Text → Value → Fields → Fields

unfoldable pub to_list : Items → List Value
to_list nil = []
to_list (cons v vs) = v ∷ to_list vs

unfoldable pub from_list : List Value → Items
from_list [] = nil
from_list (v ∷ vs) = cons v (from_list vs)
