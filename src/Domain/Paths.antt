-- ===== src/Domain/Paths.antt =====
-- domain/paths.py: the validators of remote paths and of file names.
--
-- A validator that returns its value unchanged or raises `DomainValidationError` is a test here:
-- `true` is a return, `false` a raise. The last check of `validate_remote_relative_path` joins the
-- value to a root with pathlib; after the loop over the components it cannot fail, so it is left
-- out.
use civ4_turn_relay.Prelude.{
  ℕ, ◌==◌, ltb, Bool, true, false, not, ◌&&◌, ◌||◌, List, [], ◌∷◌, map, if◌then◌else◌, Text, codes,
  text_eq, starts_with,
}

-- `any(test(char) for char in value)`
unfoldable pub any_char : (ℕ → Bool) → Text → Bool
any_char test [] = false
any_char test (c ∷ cs) = test c || any_char test cs

-- `all(test(item) for item in items)`
unfoldable pub all_of {ℓ} : {A : Type ℓ} → (A → Bool) → List A → Bool
all_of test [] = true
all_of test (x ∷ xs) = test x && all_of test xs

abbrev push_char : ℕ → List Text → List Text
push_char c [] = (c ∷ []) ∷ []
push_char c (word ∷ words) = (c ∷ word) ∷ words

-- `value.split(separator)`
unfoldable pub split : ℕ → Text → List Text
split separator [] = [] ∷ []
split separator (c ∷ cs) =
    let words = split separator cs in
    elim (c == separator) [ true ↦ [] ∷ words | false ↦ push_char c words ]

abbrev pub is_control : ℕ → Bool
is_control c = ltb c 0x20 || c == 0x7f

abbrev is_slash : ℕ → Bool
is_slash c = c == b'/'

abbrev is_backslash : ℕ → Bool
is_backslash c = c == 92

-- A component that is neither empty nor `.` nor `..`.
unfoldable pub is_component : Text → Bool
is_component part =
    not (text_eq part []) && not (text_eq part (codes ".")) && not (text_eq part (codes ".."))

unfoldable pub validate_remote_relative_path : Text → Bool
unfolding any_char all_of split is_component
validate_remote_relative_path value =
    not (text_eq value [])
    && not (any_char is_backslash value)
    && not (any_char is_control value)
    && not (starts_with value (codes "/"))
    && all_of is_component (split b'/' value)

-- `parts[0] == directory and len(parts) >= 2`
abbrev is_below : Text → List Text → Bool
is_below directory (first ∷ second ∷ rest) = text_eq first directory
is_below directory _ = false

unfoldable pub validate_accepted_save_path : Text → Bool
unfolding validate_remote_relative_path split
validate_accepted_save_path value =
    validate_remote_relative_path value && is_below (codes "saves") (split b'/' value)

unfoldable pub validate_history_manifest_ref : Text → Bool
unfolding validate_remote_relative_path split
validate_history_manifest_ref value =
    validate_remote_relative_path value && is_below (codes "history") (split b'/' value)

-- `PureWindowsPath(value).name == value` is a parameter: the rules of Windows paths are pathlib's.
-- On a value that the tests before it let through, `PurePosixPath(value).name` is the value.
unfoldable pub validate_original_filename : (Text → Bool) → Text → Bool
unfolding any_char
validate_original_filename is_windows_name value =
    not (text_eq value [])
    && not (text_eq value (codes "."))
    && not (text_eq value (codes ".."))
    && not (any_char is_slash value)
    && not (any_char is_backslash value)
    && not (any_char is_control value)
    && is_windows_name value

abbrev is_colon : ℕ → Bool
is_colon c = c == b':'

-- `value[2:]`
abbrev after_drive : Text → Text
after_drive (a ∷ b ∷ rest) = rest
after_drive _ = []

-- `<>"|?*`
abbrev is_forbidden : ℕ → Bool
is_forbidden c = c == 60 || c == 62 || c == 34 || c == 124 || c == 63 || c == 42

abbrev slash_of : ℕ → ℕ
slash_of c = if c == 92 then b'/' else c

abbrev is_dots : Text → Bool
is_dots part = text_eq part (codes ".") || text_eq part (codes "..")

-- `PureWindowsPath(value).is_absolute()` is a parameter. A colon among the first two characters that
-- is not found at 1 is the first character.
unfoldable pub validate_windows_local_path : (Text → Bool) → Text → Bool
unfolding any_char all_of split
validate_windows_local_path is_windows_absolute value =
    not (text_eq value [])
    && not (any_char is_control value)
    && not (any_char is_forbidden value)
    && (if is_windows_absolute value
        then not (any_char is_colon (after_drive value) || starts_with value (codes ":"))
          && all_of (λ part. not (is_dots part)) (split b'/' (map slash_of value))
        else starts_with value (codes "/")
          && all_of (λ part. not (is_dots part)) (split b'/' value))
