-- ===== src/Protocol/Paths.antt =====
-- protocol/paths.py: the storage paths of a game. A call that may raise gives an `Option`.
pub mod Distinct
use civ4_turn_relay.Prelude.{
  ℕ, zero, suc, ◌+◌, ◌-◌, ◌/◌, ◌%◌, ◌==◌, ltb, length, if◌then◌else◌, Bool, not, ◌&&◌, Option, none,
  some, [], ◌∷◌, ◌++◌, Text, codes, text_eq, starts_with,
}
use civ4_turn_relay.Prelude.Maybe.{◌>>=◌, ◌>>◌, require}
use civ4_turn_relay.Domain.Paths.{
  any_char, validate_remote_relative_path, validate_accepted_save_path,
  validate_history_manifest_ref,
}
use civ4_turn_relay.Domain.Ids.{validate_operation_id, validate_sha256_hex}

-- `f"{game_id}/{relative}"`
unfoldable pub under : Text → Text → Text
under game_id relative = game_id ++ b'/' ∷ relative

-- `GamePaths.resolve`
unfoldable pub resolve : Text → Text → Option Text
resolve game_id relative =
    if validate_remote_relative_path relative then some (under game_id relative) else none

-- The fixed paths: what `resolve` gives for them, as it raises on none of these.
unfoldable pub manifest : Text → Text
manifest game_id = under game_id (codes "manifest.json")

unfoldable pub upload_lock_dir : Text → Text
upload_lock_dir game_id = under game_id (codes "locks/upload.lock")

unfoldable pub upload_lock_json : Text → Text
upload_lock_json game_id = under game_id (codes "locks/upload.lock/lock.json")

unfoldable pub temporary_manifest : Text → Text → Option Text
temporary_manifest game_id operation_id = do
  require (validate_operation_id operation_id)
  resolve game_id (codes "temporary/manifest-" ++ (operation_id ++ codes ".json"))

unfoldable pub validate_save_extension : Text → Bool
validate_save_extension extension =
    starts_with extension (codes ".")
    && not (any_char (λ c. c == b'/') extension)
    && not (any_char (λ c. c == 92) extension)
    && not (text_eq extension (codes "."))
    && not (text_eq extension (codes ".."))

unfoldable pub temporary_upload : Text → Text → Text → Option Text
temporary_upload game_id operation_id extension = do
  require (validate_operation_id operation_id)
  require (validate_save_extension extension)
  resolve game_id (codes "temporary/" ++ (operation_id ++ (codes ".upload" ++ extension)))

unfoldable pub temporary_history : Text → Text → Option Text
temporary_history game_id operation_id = do
  require (validate_operation_id operation_id)
  resolve game_id (codes "temporary/history-" ++ (operation_id ++ codes ".json"))

-- The decimal digits of a number; `suc n` rounds are enough for `n`, as each divides by ten.
decimal : ℕ → ℕ → Text
decimal zero n = []
decimal (suc fuel) n =
    let more = decimal fuel (n / 10) in
    if ltb n 10 then (b'0' + n) ∷ [] else more ++ (b'0' + n % 10) ∷ []

zeros : ℕ → Text
zeros zero = []
zeros (suc n) = b'0' ∷ zeros n

-- `f"{sequence:06d}"`
unfoldable pub six_digits : ℕ → Text
unfolding decimal zeros
six_digits sequence =
    let digits = decimal (suc sequence) sequence in zeros (6 - length digits) ++ digits

-- `digest[:n]`
unfoldable pub take : ℕ → Text → Text
take zero cs = []
take (suc n) [] = []
take (suc n) (c ∷ cs) = c ∷ take n cs

unfoldable pub accepted_save_relative : ℕ → Text → Text → Option Text
accepted_save_relative sequence sha256 extension = do
  require (validate_sha256_hex sha256)
  require (validate_save_extension extension)
  let relative =
      codes "saves/" ++ (six_digits sequence ++ (codes "_" ++ (take 12 sha256 ++ extension)))
  require (validate_accepted_save_path relative)
  some relative

unfoldable pub history_manifest_relative : ℕ → Text → Option Text
history_manifest_relative sequence manifest_sha256 = do
  require (validate_sha256_hex manifest_sha256)
  let relative =
      codes "history/manifest-"
      ++ (six_digits sequence ++ (codes "-" ++ (take 12 manifest_sha256 ++ codes ".json")))
  require (validate_history_manifest_ref relative)
  some relative

-- What stands behind the last dot, if there is one: `rsplit(".", 1)[1]`.
after_last_dot : Text → Option Text
after_last_dot [] = none
after_last_dot (c ∷ cs) = elim (after_last_dot cs) [
  | some suffix ↦ some suffix
  | none ↦ if c == b'.' then some cs else none
]

unfoldable pub extension_from_original_filename : Text → Option Text
unfolding after_last_dot
extension_from_original_filename original_filename =
    if starts_with original_filename (codes ".") then none else do
      suffix ← after_last_dot original_filename
      require (not (text_eq suffix []))
      require (validate_save_extension (b'.' ∷ suffix))
      some (b'.' ∷ suffix)
