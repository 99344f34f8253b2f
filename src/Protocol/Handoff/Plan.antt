-- ===== src/Protocol/Handoff/Plan.antt =====
-- protocol/handoff.py: the paths of a new handoff and the manifest that it commits.
use civ4_turn_relay.Prelude.{◌+◌, length, Option, some, [], ◌∷◌, ◌++◌, Text, Bytes}
use civ4_turn_relay.Prelude.Maybe.{◌>>=◌, ◌>>◌, require}
use civ4_turn_relay.Domain.Libraries.{Libraries}
use civ4_turn_relay.Domain.Manifest.{
  Manifest, AcceptedSave, ProtocolMetadata, min_client_protocol_version, accepted_save_valid,
  protocol_metadata_valid, manifest_post_init,
}
use civ4_turn_relay.Protocol.Paths.{
  resolve, temporary_upload, accepted_save_relative, history_manifest_relative, temporary_history,
}
use civ4_turn_relay.Protocol.Players.{next_human_player_id}
use civ4_turn_relay.Protocol.Handoff.Request.{HandoffRequest}

-- What `_run_owned_handoff` computes before the upload.
pub record UploadPlan : Type 0 where
  pub next_player : Text
  pub save_relative : Text
  pub save_storage : Text
  pub temp_upload : Text

-- What it computes before the archive.
pub record HistoryPlan : Type 0 where
  pub history_relative : Text
  pub history_storage : Text
  pub temp_history : Text

module _ (lib : Libraries) (q : HandoffRequest) where
  unfoldable pub digest : Text
  digest = lib.sha256_hexdigest q.outgoing_bytes

  unfoldable pub upload_plan : Text → Manifest → Option UploadPlan
  upload_plan extension m = do
    next_player ← next_human_player_id m q.local_player_id
    save_relative ← accepted_save_relative (m.protocol_sequence + 1) digest extension
    save_storage ← resolve q.game_id save_relative
    temp_upload ← temporary_upload q.game_id q.operation_id extension
    some (record {
      next_player = next_player;
      save_relative = save_relative;
      save_storage = save_storage;
      temp_upload = temp_upload;
    })

  unfoldable pub history_plan : Manifest → Bytes → Option HistoryPlan
  history_plan m raw = do
    history_relative ← history_manifest_relative m.protocol_sequence (lib.sha256_hexdigest raw)
    history_storage ← resolve q.game_id history_relative
    temp_history ← temporary_history q.game_id q.operation_id
    some (record {
      history_relative = history_relative;
      history_storage = history_storage;
      temp_history = temp_history;
    })

  -- The arguments of `AcceptedSave(…)`, `ProtocolMetadata(…)` and `Manifest(…)`.
  unfoldable pub outgoing_save : UploadPlan → AcceptedSave
  outgoing_save p = record {
    sha256 = digest;
    size_bytes = length q.outgoing_bytes;
    remote_path = p.save_relative;
    original_filename = q.original_filename;
    accepted_at = q.now_utc;
  }

  unfoldable pub outgoing_metadata : ProtocolMetadata
  outgoing_metadata = record {
    min_client_protocol = min_client_protocol_version;
    last_operation_id = some q.operation_id;
  }

  unfoldable pub outgoing_manifest : Manifest → UploadPlan → Text → Manifest
  outgoing_manifest m p history_relative = record m {
    protocol_sequence = m.protocol_sequence + 1;
    current_player_id = p.next_player;
    last_sender_id = some q.local_player_id;
    accepted_save = some (outgoing_save p);
    accepted_save_hashes = m.accepted_save_hashes ++ (digest ∷ []);
    previous_manifest_ref = some history_relative;
    protocol = outgoing_metadata;
  }

  -- The constructors raise on what is not valid.
  unfoldable pub new_manifest : Manifest → UploadPlan → Text → Option Manifest
  new_manifest m p history_relative = do
    require (accepted_save_valid lib (outgoing_save p))
    require (protocol_metadata_valid outgoing_metadata)
    require (manifest_post_init (outgoing_manifest m p history_relative))
    some (outgoing_manifest m p history_relative)
