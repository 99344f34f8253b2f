-- ===== src/Domain/Serialization.antt =====
-- domain/serialization.py: canonical JSON and the strict readers of a mapping.
use civ4_turn_relay.Prelude.{
  ℕ, if◌then◌else◌, Bool, true, false, not, ◌&&◌, ◌||◌, Option, none, some, List, [], ◌∷◌, Text,
  Bytes, text_eq, contains,
}
use civ4_turn_relay.Domain.Json.{
  Value, null, boolean, integer, string, array, object, Items, nil, cons, Fields, end, field,
  to_list,
}
use civ4_turn_relay.Domain.Libraries.{Libraries}
use civ4_turn_relay.Domain.Paths.{all_of}

unfoldable pub has_key : Text → Fields → Bool
unfolding text_eq
has_key key end = false
has_key key (field k v fs) = text_eq k key || has_key key fs

-- `_convert_strict_json` returns: no object has a key twice, at any depth.
unfoldable mutual
  pub is_strict : Value → Bool
  is_strict (array vs) = strict_items vs
  is_strict (object fs) = strict_fields fs
  is_strict null = true
  is_strict _ = true

  pub strict_items : Items → Bool
  strict_items nil = true
  strict_items (cons v vs) = is_strict v && strict_items vs

  pub strict_fields : Fields → Bool
  strict_fields end = true
  strict_fields (field k v fs) = not (has_key k fs) && is_strict v && strict_fields fs

unfoldable pub parse_json_object_bytes : Libraries → Bytes → Option Fields
parse_json_object_bytes lib content = elim (lib.json_loads content) [
  | some (object fs) ↦ if is_strict (object fs) then some fs else none
  | _ ↦ none
]

abbrev keys : Fields → List Text
keys end = []
keys (field k v fs) = k ∷ keys fs

-- `check_exact_keys` with no optional keys.
unfoldable pub check_exact_keys : Fields → List Text → Bool
unfolding has_key all_of contains
check_exact_keys mapping required =
    all_of (λ k. has_key k mapping) required && all_of (contains required) (keys mapping)

-- `check_exact_keys` with optional keys.
unfoldable pub check_keys : Fields → List Text → List Text → Bool
unfolding has_key all_of contains
check_keys mapping required allowed =
    all_of (λ k. has_key k mapping) required
    && all_of (λ k. contains required k || contains allowed k) (keys mapping)

unfoldable pub get : Fields → Text → Option Value
unfolding text_eq
get end key = none
get (field k v fs) key = if text_eq k key then some v else get fs key

unfoldable pub get_string : Fields → Text → Option Text
unfolding get
get_string mapping key = elim (get mapping key) [ some (string s) ↦ some s | _ ↦ none ]

unfoldable pub get_optional_string : Fields → Text → Option (Option Text)
unfolding get
get_optional_string mapping key = elim (get mapping key) [
  | some null ↦ some none
  | some (string s) ↦ some (some s)
  | _ ↦ none
]

-- Every caller of `get_integer` below raises on a negative number, as this does at once.
unfoldable pub get_integer : Fields → Text → Option ℕ
unfolding get
get_integer mapping key = elim (get mapping key) [ some (integer n) ↦ some n | _ ↦ none ]

unfoldable pub get_boolean : Fields → Text → Option Bool
unfolding get
get_boolean mapping key = elim (get mapping key) [ some (boolean b) ↦ some b | _ ↦ none ]

unfoldable pub get_array : Fields → Text → Option (List Value)
unfolding get to_list
get_array mapping key = elim (get mapping key) [ some (array vs) ↦ some (to_list vs) | _ ↦ none ]

unfoldable pub get_object : Fields → Text → Option Fields
unfolding get
get_object mapping key = elim (get mapping key) [ some (object fs) ↦ some fs | _ ↦ none ]

unfoldable pub get_optional_object : Fields → Text → Option (Option Fields)
unfolding get
get_optional_object mapping key = elim (get mapping key) [
  | some null ↦ some none
  | some (object fs) ↦ some (some fs)
  | _ ↦ none
]
