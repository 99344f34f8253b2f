-- ===== src/Protocol/Download.antt =====
-- protocol/download.py: the verified download of the accepted save. It returns bytes and writes
-- nothing.
pub mod Sound
pub mod Quiet
use civ4_turn_relay.Prelude.{
  ℕ, ◌==◌, ltb, leb, if◌then◌else◌, length, is_some, Bool, true, false, not, ◌&&◌, Option, none,
  some, Text, Bytes, text_eq,
}
use civ4_turn_relay.Prelude.Maybe.{require, ◌>>◌}
use civ4_turn_relay.Domain.Libraries.{Libraries}
use civ4_turn_relay.Domain.Paths.{validate_accepted_save_path, validate_original_filename}
use civ4_turn_relay.Domain.Ids.{validate_game_id, validate_player_id, validate_sha256_hex}
use civ4_turn_relay.Domain.Manifest.{Manifest, AcceptedSave}
use civ4_turn_relay.Storage.Port.{
  Storage, StorageCapabilities, Reply, ok, err, not_found, wrong_kind,
}
use civ4_turn_relay.Protocol.Action.{Action, pure, lift, call, read_storage, ◌>>=◌}
use civ4_turn_relay.Protocol.Paths.{resolve}
use civ4_turn_relay.Protocol.ManifestAccess
use civ4_turn_relay.Protocol.ManifestAccess.{ManifestReadOutcome, read_authoritative_manifest}
use civ4_turn_relay.Protocol.Handoff.Request.{default_max_save_bytes}

pub data DownloadOutcome : Type 0 where
  verified already_verified not_current_owner no_downloadable_turn hash_mismatch size_mismatch
        wrong_kind_save oversize missing_save invalid_manifest missing_manifest transport_failure
        capability_failure :
      DownloadOutcome

pub record VerifiedDownloadEvidence : Type 0 where
  pub game_id : Text
  pub protocol_sequence : ℕ
  pub sha256 : Text
  pub size_bytes : ℕ

-- `VerifiedDownloadEvidence.__post_init__` returns.
unfoldable pub evidence_valid : VerifiedDownloadEvidence → Bool
evidence_valid e =
    validate_game_id e.game_id
    && leb 1 e.protocol_sequence
    && validate_sha256_hex e.sha256
    && ltb 0 e.size_bytes

pub record VerifiedDownloadArtifact : Type 0 where
  pub game_id : Text
  pub protocol_sequence : ℕ
  pub sha256 : Text
  pub size_bytes : ℕ
  pub remote_path : Text
  pub original_filename : Text
  pub verified_bytes : Bytes

-- `VerifiedDownloadArtifact.__post_init__` returns.
unfoldable pub artifact_valid : Libraries → VerifiedDownloadArtifact → Bool
artifact_valid lib a =
    validate_game_id a.game_id
    && leb 1 a.protocol_sequence
    && validate_sha256_hex a.sha256
    && ltb 0 a.size_bytes
    && validate_accepted_save_path a.remote_path
    && validate_original_filename lib.is_windows_name a.original_filename
    && length a.verified_bytes == a.size_bytes
    && text_eq (lib.sha256_hexdigest a.verified_bytes) a.sha256

pub record DownloadRequest : Type 0 where
  pub game_id : Text
  pub local_player_id : Text
  pub max_save_bytes : ℕ
  pub prior_evidence : Option VerifiedDownloadEvidence

abbrev pub is_of_game : Text → Option VerifiedDownloadEvidence → Bool
is_of_game game_id none = true
is_of_game game_id (some e) = text_eq e.game_id game_id

-- `DownloadRequest.__post_init__` returns.
unfoldable pub download_request_valid : DownloadRequest → Bool
download_request_valid q =
    validate_game_id q.game_id
    && validate_player_id q.local_player_id
    && ltb 0 q.max_save_bytes
    && leb q.max_save_bytes default_max_save_bytes
    && is_of_game q.game_id q.prior_evidence

pub record DownloadResult : Type 0 where
  pub outcome : DownloadOutcome
  pub artifact : Option VerifiedDownloadArtifact

-- `DownloadResult.__post_init__` returns.
unfoldable pub download_result_valid : DownloadResult → Bool
download_result_valid r = elim r.outcome [
  | verified ↦ is_some r.artifact
  | _ ↦ not (is_some r.artifact)
]

-- `DownloadResult(outcome)`
abbrev pub without_artifact : DownloadOutcome → DownloadResult
without_artifact outcome = record { outcome = outcome; artifact = none }

-- The evidence is of the manifest's sequence, hash and size.
unfoldable pub is_proven : Manifest → AcceptedSave → Option VerifiedDownloadEvidence → Bool
is_proven m a none = false
is_proven m a (some e) =
    e.protocol_sequence == m.protocol_sequence
    && text_eq e.sha256 a.sha256
    && e.size_bytes == a.size_bytes

module _ {S : Type 0} (storage : Storage S) (lib : Libraries) (q : DownloadRequest) where
  unfoldable pub artifact_of : Manifest → AcceptedSave → Bytes → VerifiedDownloadArtifact
  artifact_of m a content = record {
    game_id = m.game_id;
    protocol_sequence = m.protocol_sequence;
    sha256 = lib.sha256_hexdigest content;
    size_bytes = length content;
    remote_path = a.remote_path;
    original_filename = a.original_filename;
    verified_bytes = content;
  }

  -- The tests of the bytes that were read; the constructor of the artifact may raise.
  unfoldable pub check_data : Manifest → AcceptedSave → Bytes → Option DownloadResult
  check_data m a content =
      if ltb q.max_save_bytes (length content)
      then some (without_artifact oversize)
      else if not (length content == a.size_bytes)
      then some (without_artifact size_mismatch)
      else if not (text_eq (lib.sha256_hexdigest content) a.sha256)
      then some (without_artifact hash_mismatch)
      else require (artifact_valid lib (artifact_of m a content))
        >> some (record { outcome = verified; artifact = some (artifact_of m a content) })

  unfoldable pub after_read : Manifest → AcceptedSave → Reply Bytes → Action S DownloadResult
  after_read m a (ok content) = lift (check_data m a content)
  after_read m a (err not_found) = pure (without_artifact missing_save)
  after_read m a (err wrong_kind) = pure (without_artifact wrong_kind_save)
  after_read m a (err _) = pure (without_artifact transport_failure)

  unfoldable pub at_path : Manifest → AcceptedSave → Option Text → Action S DownloadResult
  at_path m a none = pure (without_artifact invalid_manifest)
  at_path m a (some path) = call (storage.read_file path) (after_read m a)

  unfoldable pub fetch : Manifest → AcceptedSave → Action S DownloadResult
  fetch m a =
      if ltb q.max_save_bytes a.size_bytes
      then pure (without_artifact oversize)
      else if is_proven m a q.prior_evidence
      then pure (without_artifact already_verified)
      else if validate_accepted_save_path a.remote_path
      then at_path m a (resolve q.game_id a.remote_path)
      else pure (without_artifact invalid_manifest)

  unfoldable pub accepted_turn : Manifest → Option AcceptedSave → Action S DownloadResult
  accepted_turn m none = pure (without_artifact no_downloadable_turn)
  accepted_turn m (some a) =
      if m.protocol_sequence == 0 then pure (without_artifact no_downloadable_turn) else fetch m a

  unfoldable pub with_manifest : Option Manifest → Action S DownloadResult
  with_manifest none = pure (without_artifact transport_failure)
  with_manifest (some m) =
      if text_eq m.current_player_id q.local_player_id
      then accepted_turn m m.accepted_save
      else pure (without_artifact not_current_owner)

  unfoldable pub by_outcome : Option Manifest → ManifestReadOutcome → Action S DownloadResult
  by_outcome om ManifestAccess.missing = pure (without_artifact missing_manifest)
  by_outcome om ManifestAccess.invalid = pure (without_artifact invalid_manifest)
  by_outcome om ManifestAccess.game_id_mismatch = pure (without_artifact invalid_manifest)
  by_outcome om ManifestAccess.transport_failure = pure (without_artifact transport_failure)
  by_outcome om ManifestAccess.ok = with_manifest om

  unfoldable pub download_accepted_save : Action S DownloadResult
  download_accepted_save =
      read_storage (λ s. storage.capabilities s) >>= λ (caps : StorageCapabilities).
      if caps.complete_readback
      then (read_authoritative_manifest storage lib q.game_id >>= λ read.
          by_outcome read.manifest read.outcome)
      else pure (without_artifact capability_failure)
