-- ===== src/Protocol/Initialize.antt =====
-- protocol/initialize.py: the creation of a match, and the classification of one that exists. Each
-- function is what the source does from one storage call up to the next.
pub mod Keeps
pub mod Zero
pub mod Fresh
use civ4_turn_relay.Prelude.{
  if◌then◌else◌, Bool, false, ◌&&◌, Option, none, some, List, [], ◌∷◌, Text, Bytes, codes, text_eq,
}
use civ4_turn_relay.Domain.Libraries.{Libraries}
use civ4_turn_relay.Domain.Ids.{validate_operation_id}
use civ4_turn_relay.Domain.Manifest.{
  Manifest, Player, ProtocolMetadata, manifest_schema_version, min_client_protocol_version,
  protocol_metadata_valid, manifest_post_init,
}
use civ4_turn_relay.Domain.Manifest.Codec.{to_json_bytes}
use civ4_turn_relay.Domain.Config.{MatchConfig}
use civ4_turn_relay.Storage.Port.{
  Storage, StorageError, Reply, ok, err, already_exists, wrong_kind, capability, transport,
}
use civ4_turn_relay.Protocol.Action.{Action, pure, lift, call, ensure, ◌>>=◌, ◌>>◌}
use civ4_turn_relay.Protocol.Paths.{resolve, manifest, temporary_manifest}
use civ4_turn_relay.Protocol.ManifestAccess
use civ4_turn_relay.Protocol.ManifestAccess.{
  ManifestReadOutcome, ManifestReadResult, read_authoritative_manifest,
}

pub data InitializeOutcome : Type 0 where
  created joined_existing incomplete_or_conflicting invalid_manifest game_id_mismatch
        capability_failure transport_failure :
      InitializeOutcome

pub record InitializeResult : Type 0 where
  pub outcome : InitializeOutcome
  pub manifest : Option Manifest

-- `InitializeResult(outcome)`
abbrev pub only : InitializeOutcome → InitializeResult
only outcome = record { outcome = outcome; manifest = none }

abbrev pub with_manifest : InitializeOutcome → Manifest → InitializeResult
with_manifest outcome m = record { outcome = outcome; manifest = some m }

-- `config.players[0]`, which raises on no players.
abbrev pub first_human : List Player → Option Player
first_human [] = none
first_human (p ∷ ps) = some p

abbrev pub zero_metadata : ProtocolMetadata
zero_metadata = record {
  min_client_protocol = min_client_protocol_version;
  last_operation_id = none;
}

unfoldable pub zero_manifest : MatchConfig → Player → Manifest
zero_manifest config first = record {
  schema_version = manifest_schema_version;
  game_id = config.game_id;
  display_name = config.display_name;
  players = config.players;
  protocol_sequence = 0;
  current_player_id = first.id;
  last_sender_id = none;
  accepted_save = none;
  accepted_save_hashes = [];
  previous_manifest_ref = none;
  protocol = zero_metadata;
}

-- `_sequence_zero_manifest`; the constructors raise on what is not valid.
unfoldable pub sequence_zero_manifest : MatchConfig → Option Manifest
sequence_zero_manifest config = elim (first_human config.players) [
  | none ↦ none
  | some first ↦
      if protocol_metadata_valid zero_metadata && manifest_post_init (zero_manifest config first)
      then some (zero_manifest config first)
      else none
]

abbrev pub required_subdirectories : List Text
required_subdirectories = codes "saves" ∷ codes "temporary" ∷ codes "locks" ∷ codes "history" ∷ []

module _ {S : Type 0} (storage : Storage S) (lib : Libraries) (config : MatchConfig)
    (operation_id : Text) where
  unfoldable pub existing : Option Manifest → ManifestReadOutcome → InitializeResult
  existing (some m) ManifestAccess.ok = with_manifest joined_existing m
  existing om ManifestAccess.invalid = only invalid_manifest
  existing om ManifestAccess.game_id_mismatch = only game_id_mismatch
  existing om ManifestAccess.transport_failure = only transport_failure
  existing om _ = only incomplete_or_conflicting

  unfoldable pub classify_existing_game_root : Action S InitializeResult
  classify_existing_game_root = read_authoritative_manifest storage lib config.game_id >>= λ read.
      pure (existing read.manifest read.outcome)

  -- `recovered.raw_bytes == intended_payload`
  abbrev pub is_payload : Option Bytes → Bytes → Bool
  is_payload none payload = false
  is_payload (some raw) payload = text_eq raw payload

  unfoldable pub recovered :
      Bytes → Option Bytes → Option Manifest → ManifestReadOutcome → InitializeResult
  recovered payload raw (some m) ManifestAccess.ok =
      if is_payload raw payload then with_manifest created m else with_manifest joined_existing m
  recovered payload raw om ManifestAccess.invalid = only invalid_manifest
  recovered payload raw om ManifestAccess.game_id_mismatch = only game_id_mismatch
  recovered payload raw om _ = only transport_failure

  unfoldable pub classify_uncertain_commit : Bytes → Action S InitializeResult
  classify_uncertain_commit payload =
      read_authoritative_manifest storage lib config.game_id >>= λ read.
      pure (recovered payload read.raw_bytes read.manifest read.outcome)

  -- The handlers of the staging and the replacement.
  unfoldable pub commit_failed : Bytes → StorageError → Action S InitializeResult
  commit_failed payload capability = pure (only capability_failure)
  commit_failed payload transport = classify_uncertain_commit payload
  commit_failed payload _ = pure (only transport_failure)

  unfoldable pub after_replace : Manifest → Reply (Unit {0}) → Action S InitializeResult
  after_replace intended (ok _) = pure (with_manifest created intended)
  after_replace intended (err e) = commit_failed (to_json_bytes lib intended) e

  unfoldable pub after_write : Manifest → Text → Reply (Unit {0}) → Action S InitializeResult
  after_write intended temp (ok _) =
      call (storage.atomic_replace temp (manifest config.game_id)) (after_replace intended)
  after_write intended temp (err e) = commit_failed (to_json_bytes lib intended) e

  unfoldable pub commit_first : Action S InitializeResult
  commit_first = do
    intended ← lift (sequence_zero_manifest config)
    temp ← lift (temporary_manifest config.game_id operation_id)
    call (storage.write_file temp (to_json_bytes lib intended) false) (after_write intended temp)

  -- The handlers around the loop over the subdirectories.
  unfoldable pub after_subdirectory :
      Action S InitializeResult → Reply (Unit {0}) → Action S InitializeResult
  after_subdirectory rest (ok _) = rest
  after_subdirectory rest (err capability) = pure (only capability_failure)
  after_subdirectory rest (err wrong_kind) = pure (only incomplete_or_conflicting)
  after_subdirectory rest (err _) = pure (only transport_failure)

  unfoldable pub finish_new_match : List Text → Action S InitializeResult
  finish_new_match [] = commit_first
  finish_new_match (name ∷ names) = lift (resolve config.game_id name) >>= λ path.
      call (storage.mkdir path) (after_subdirectory (finish_new_match names))

  unfoldable pub after_root : Reply (Unit {0}) → Action S InitializeResult
  after_root (ok _) = finish_new_match required_subdirectories
  after_root (err already_exists) = classify_existing_game_root
  after_root (err wrong_kind) = pure (only incomplete_or_conflicting)
  after_root (err capability) = pure (only capability_failure)
  after_root (err _) = pure (only transport_failure)

  unfoldable pub initialize_match : Action S InitializeResult
  initialize_match = do
    ensure (validate_operation_id operation_id)
    call (storage.mkdir config.game_id) after_root
