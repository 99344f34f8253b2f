-- ===== src/Domain/Ids.antt =====
-- domain/ids.py: the validators of identifiers, digests and timestamps. A validator that returns its
-- value or raises is a test; the patterns are matched as a whole (`fullmatch`).
use civ4_turn_relay.Prelude.{
  ℕ, zero, suc, leb, ◌==◌, if◌then◌else◌, length, get_last?, Bool, true, false, ◌&&◌, ◌||◌, Option,
  none, some, List, [], ◌∷◌, Text,
}
use civ4_turn_relay.Domain.Libraries.{Libraries}
use civ4_turn_relay.Domain.Paths.{all_of}

abbrev is_lower : ℕ → Bool
is_lower c = leb b'a' c && leb c b'z'

abbrev is_digit : ℕ → Bool
is_digit c = leb b'0' c && leb c b'9'

-- `[0-9a-f]`
abbrev pub is_hex : ℕ → Bool
is_hex c = is_digit c || (leb b'a' c && leb c b'f')

-- `[a-z0-9-]`
abbrev is_game_char : ℕ → Bool
is_game_char c = is_lower c || is_digit c || c == b'-'

-- `[a-z0-9_-]`
abbrev is_id_char : ℕ → Bool
is_id_char c = is_game_char c || c == b'_'

abbrev head_is_lower : Text → Bool
head_is_lower [] = false
head_is_lower (c ∷ cs) = is_lower c

abbrev last_is_alphanumeric : Option ℕ → Bool
last_is_alphanumeric none = false
last_is_alphanumeric (some c) = is_lower c || is_digit c

-- `^[a-z][a-z0-9-]{1,62}[a-z0-9]$`
unfoldable pub validate_game_id : Text → Bool
unfolding all_of
validate_game_id value =
    head_is_lower value
    && all_of is_game_char value
    && last_is_alphanumeric (get_last? value)
    && leb 3 (length value)
    && leb (length value) 64

-- `^[a-z][a-z0-9_-]{0,31}$`
unfoldable pub validate_player_id : Text → Bool
unfolding all_of
validate_player_id value = head_is_lower value && all_of is_id_char value && leb (length value) 32

-- `^[a-z][a-z0-9_-]{0,63}$`
is_client_id : Text → Bool
unfolding all_of
is_client_id value = head_is_lower value && all_of is_id_char value && leb (length value) 64

-- A pattern of fixed length, as one test for each character.
match_chars : List (ℕ → Bool) → Text → Bool
match_chars [] [] = true
match_chars [] (c ∷ cs) = false
match_chars (test ∷ tests) [] = false
match_chars (test ∷ tests) (c ∷ cs) = test c && match_chars tests cs

-- `test{n}` before `tests`
times : ℕ → (ℕ → Bool) → List (ℕ → Bool) → List (ℕ → Bool)
times zero test tests = tests
times (suc n) test tests = test ∷ times n test tests

abbrev char : ℕ → ℕ → Bool
char c d = d == c

-- `^[0-9a-f]{64}$`
unfoldable pub validate_sha256_hex : Text → Bool
unfolding match_chars times
validate_sha256_hex = match_chars (times 64 is_hex [])

-- `^[0-9a-f]{8}-[0-9a-f]{4}-[0-9a-f]{4}-[0-9a-f]{4}-[0-9a-f]{12}$`
unfoldable pub validate_operation_id : Text → Bool
unfolding match_chars times
validate_operation_id = match_chars (
    times 8 is_hex (
      char b'-'
      ∷ times 4 is_hex (
          char b'-'
          ∷ times 4 is_hex (char b'-' ∷ times 4 is_hex (char b'-' ∷ times 12 is_hex [])))))

-- A canonical UUID or the legacy form.
unfoldable pub validate_client_id : Text → Bool
unfolding validate_operation_id is_client_id
validate_client_id value = validate_operation_id value || is_client_id value

-- `^\d{4}-\d{2}-\d{2}T\d{2}:\d{2}:\d{2}Z$` and a moment that `strptime` reads
unfoldable pub validate_utc_timestamp : Libraries → Text → Bool
unfolding match_chars times
validate_utc_timestamp lib value =
    let two = times 2 lib.is_decimal in
    match_chars
      (times 4 lib.is_decimal (
        char b'-'
        ∷ two (
            char b'-'
            ∷ two (char b'T' ∷ two (char b':' ∷ two (char b':' ∷ two (char b'Z' ∷ [])))))))
      value
    && lib.strptime value

-- `add_utc_seconds`; no value where it raises.
unfoldable pub add_utc_seconds : Libraries → Text → ℕ → Option Text
unfolding validate_utc_timestamp
add_utc_seconds lib value seconds =
    if validate_utc_timestamp lib value then lib.advance_seconds value seconds else none
