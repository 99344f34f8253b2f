-- ===== src/Domain/Manifest.antt =====
-- domain/manifest.py: the manifest of a match, schema version 1. Every constructor validates, so an
-- instance that exists has passed the tests that are here called `…_valid`.
pub mod Codec
pub mod RoundTrip
pub mod Validity
pub mod WellFormed
use civ4_turn_relay.Prelude.{
  ℕ, ◌==◌, ltb, if◌then◌else◌, length, get_last?, is_some, Bool, true, false, not, ◌&&◌, Option,
  none, some, List, [], ◌∷◌, Text, text_eq, contains,
}
use civ4_turn_relay.Domain.Libraries.{Libraries}
use civ4_turn_relay.Domain.Paths.{
  all_of, validate_accepted_save_path, validate_history_manifest_ref, validate_original_filename,
}
use civ4_turn_relay.Domain.Ids.{
  validate_game_id, validate_player_id, validate_sha256_hex, validate_operation_id,
  validate_utc_timestamp,
}

abbrev pub manifest_schema_version : ℕ
manifest_schema_version = 1

abbrev pub min_client_protocol_version : ℕ
min_client_protocol_version = 1

pub record Player : Type 0 where
  pub id : Text
  pub display_name : Text

pub record AcceptedSave : Type 0 where
  pub sha256 : Text
  pub size_bytes : ℕ
  pub remote_path : Text
  pub original_filename : Text
  pub accepted_at : Text

pub record ProtocolMetadata : Type 0 where
  pub min_client_protocol : ℕ
  pub last_operation_id : Option Text

pub record Manifest : Type 0 where
  pub schema_version : ℕ
  pub game_id : Text
  pub display_name : Text
  pub players : List Player
  pub protocol_sequence : ℕ
  pub current_player_id : Text
  pub last_sender_id : Option Text
  pub accepted_save : Option AcceptedSave
  pub accepted_save_hashes : List Text
  pub previous_manifest_ref : Option Text
  pub protocol : ProtocolMetadata

unfoldable pub player_valid : Player → Bool
player_valid p = validate_player_id p.id && not (text_eq p.display_name [])

unfoldable pub accepted_save_valid : Libraries → AcceptedSave → Bool
accepted_save_valid lib a =
    validate_sha256_hex a.sha256
    && ltb 0 a.size_bytes
    && validate_accepted_save_path a.remote_path
    && validate_original_filename lib.is_windows_name a.original_filename
    && validate_utc_timestamp lib a.accepted_at

-- `test(value)` unless the value is `None`
abbrev pub optional {ℓ} : {A : Type ℓ} → (A → Bool) → Option A → Bool
optional test none = true
optional test (some a) = test a

unfoldable pub protocol_metadata_valid : ProtocolMetadata → Bool
protocol_metadata_valid p =
    p.min_client_protocol == min_client_protocol_version
    && optional validate_operation_id p.last_operation_id

unfoldable pub player_ids : List Player → List Text
player_ids [] = []
player_ids (p ∷ ps) = p.id ∷ player_ids ps

-- No text stands twice: the loop over `seen`, and `len(set(xs)) == len(xs)`.
unfoldable pub all_distinct : List Text → Bool
all_distinct [] = true
all_distinct (x ∷ xs) = not (contains xs x) && all_distinct xs

-- `_validate_players`
unfoldable pub players_valid : Manifest → Bool
players_valid m =
    not (length m.players == 0)
    && all_distinct (player_ids m.players)
    && contains (player_ids m.players) m.current_player_id
    && optional (contains (player_ids m.players)) m.last_sender_id

-- `_validate_hashes`
unfoldable pub hashes_valid : Manifest → Bool
hashes_valid m =
    all_of validate_sha256_hex m.accepted_save_hashes
    && all_distinct m.accepted_save_hashes
    && length m.accepted_save_hashes == m.protocol_sequence

-- The last hash is that of the accepted save.
abbrev ends_with_save : Option AcceptedSave → List Text → Bool
ends_with_save none hashes = false
ends_with_save (some a) hashes = elim (get_last? hashes) [
  | some latest ↦ text_eq latest a.sha256
  | none ↦ false
]

-- `_validate_sequence_coupling`
unfoldable pub coupling_valid : Manifest → Bool
coupling_valid m =
    if m.protocol_sequence == 0
    then not (is_some m.accepted_save)
      && not (is_some m.last_sender_id)
      && not (is_some m.previous_manifest_ref)
      && not (is_some m.protocol.last_operation_id)
    else is_some m.accepted_save
      && is_some m.last_sender_id
      && is_some m.previous_manifest_ref
      && optional validate_history_manifest_ref m.previous_manifest_ref
      && is_some m.protocol.last_operation_id
      && ends_with_save m.accepted_save m.accepted_save_hashes

-- `Manifest.__post_init__` on components that exist.
unfoldable pub manifest_post_init : Manifest → Bool
manifest_post_init m =
    m.schema_version == manifest_schema_version
    && validate_game_id m.game_id
    && not (text_eq m.display_name [])
    && players_valid m
    && hashes_valid m
    && coupling_valid m

-- The components exist, and the constructor returns: every `Manifest` of the program is such.
unfoldable pub manifest_valid : Libraries → Manifest → Bool
manifest_valid lib m =
    all_of player_valid m.players
    && optional (accepted_save_valid lib) m.accepted_save
    && protocol_metadata_valid m.protocol
    && manifest_post_init m
