-- ===== src/Protocol/Handoff/Effect/Step.antt =====
-- protocol/handoff.py: the manifest and the paths that a handoff plans.
use civ4_turn_relay.Prelude.{◌+◌, ◌≡◌, refl, ◌≢◌, false, some, Text, Bytes, arith, contains}
use civ4_turn_relay.Domain.Libraries.{Libraries}
use civ4_turn_relay.Domain.Manifest.{Manifest, manifest_valid}
use civ4_turn_relay.Domain.Manifest.Validity.{from_json_bytes-valid}
use civ4_turn_relay.Domain.Manifest.Codec.{from_json_bytes}
use civ4_turn_relay.Protocol.Classify
use civ4_turn_relay.Protocol.Classify.{
  HashClassification, classify, classify_candidate_hash, is_value, PriorAttemptEvidence,
}
use civ4_turn_relay.Protocol.Paths.{manifest}
use civ4_turn_relay.Protocol.Paths.Distinct.{
  Begins-ne, temporary_upload-Begins, temporary_history-Begins, accepted_save-Begins,
  history-Begins, manifest-Begins,
}
use civ4_turn_relay.Protocol.Handoff.Request.{HandoffRequest}
use civ4_turn_relay.Protocol.Handoff.Plan.{
  digest, UploadPlan, HistoryPlan, upload_plan, history_plan, new_manifest, outgoing_manifest,
  outgoing_save, outgoing_metadata,
}
use civ4_turn_relay.Protocol.Handoff.Effect.{IsStep}

-- It is the caller's turn in the manifest that the bytes hold, and the save is new.
pub record IsTurn (lib : Libraries) (q : HandoffRequest) (m : Manifest) (raw : Bytes) : Type 0 where
  pub parsed : from_json_bytes lib raw ≡ some m
  pub same_game : m.game_id ≡ q.game_id
  pub turn : m.current_player_id ≡ q.local_player_id
  pub fresh : contains m.accepted_save_hashes (digest lib q) ≡ false

pub planned-IsStep :
    (lib : Libraries) (q : HandoffRequest) (m new : Manifest) (raw ext : _) (p : UploadPlan)
    (h : HistoryPlan)
    → IsTurn lib q m raw
    → upload_plan lib q ext m ≡ some p
    → history_plan lib q m raw ≡ some h
    → new_manifest lib q m p h.history_relative ≡ some new
    → IsStep lib q new
unfolding upload_plan history_plan new_manifest outgoing_manifest outgoing_metadata manifest_valid
planned-IsStep lib q m new raw ext p h t up hp nm = record {
  raw = raw;
  old = m;
  parsed = t.parsed;
  successor = record {
    turn = t.turn;
    fresh = t.fresh;
    next = ground arith;
    sequence = ground arith;
    hashes = ground arith;
    sender = ground arith;
    players = ground arith;
    game = ground (arith, t.same_game);
    operation = ground arith;
    save = outgoing_save lib q p;
    accepted = ground arith;
    digest_of_save = unfold outgoing_save in refl;
    size_of_save = unfold outgoing_save in refl;
    valid = ground (arith, from_json_bytes-valid lib raw m t.parsed);
  };
  archived = ground arith;
}

pub classified-fresh :
    (d : Text) (hs : _) (l c : Text) (s : _) (e : PriorAttemptEvidence)
    → classify_candidate_hash d hs l c s e ≡ some Classify.new_handoff_candidate
    → contains hs d ≡ false
unfolding classify_candidate_hash classify
classified-fresh d hs l c s e h = ground arith

-- The paths of a plan are not the manifest's.
pub upload_plan-apart :
    (lib : Libraries) (q : HandoffRequest) (m : Manifest) (ext : Text) (p : UploadPlan)
    → upload_plan lib q ext m ≡ some p
    → (p.temp_upload ≢ manifest q.game_id) × (p.save_storage ≢ manifest q.game_id)
unfolding upload_plan
upload_plan-apart lib q m ext p h = (
  Begins-ne q.game_id b't' b'm' p.temp_upload (manifest q.game_id) (λ e. ground arith)
      (temporary_upload-Begins q.game_id q.operation_id ext p.temp_upload (ground arith))
      (manifest-Begins q.game_id),
  Begins-ne q.game_id b's' b'm' p.save_storage (manifest q.game_id) (λ e. ground arith)
      (accepted_save-Begins q.game_id (m.protocol_sequence + 1) (digest lib q) ext p.save_relative
        p.save_storage (ground arith) (ground arith))
      (manifest-Begins q.game_id),
)

pub history_plan-apart :
    (lib : Libraries) (q : HandoffRequest) (m : Manifest) (raw : Bytes) (p : HistoryPlan)
    → history_plan lib q m raw ≡ some p
    → (p.temp_history ≢ manifest q.game_id) × (p.history_storage ≢ manifest q.game_id)
unfolding history_plan
history_plan-apart lib q m raw p h = (
  Begins-ne q.game_id b't' b'm' p.temp_history (manifest q.game_id) (λ e. ground arith)
      (temporary_history-Begins q.game_id q.operation_id p.temp_history (ground arith))
      (manifest-Begins q.game_id),
  Begins-ne q.game_id b'h' b'm' p.history_storage (manifest q.game_id) (λ e. ground arith)
      (history-Begins q.game_id m.protocol_sequence (lib.sha256_hexdigest raw) p.history_relative
        p.history_storage (ground arith) (ground arith))
      (manifest-Begins q.game_id),
)
