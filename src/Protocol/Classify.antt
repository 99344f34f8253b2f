-- ===== src/Protocol/Classify.antt =====
-- protocol/hash_classify.py: pure classification of a candidate hash before an upload.
pub mod Table
use civ4_turn_relay.Prelude.{
  get_last?, if◌then◌else◌, Bool, true, false, not, ◌&&◌, Option, none, some, List, Text, text_eq,
  contains,
}
use civ4_turn_relay.Prelude.Maybe.{◌>>=◌, ◌>>◌, require}
use civ4_turn_relay.Domain.Paths.{all_of}
use civ4_turn_relay.Domain.Ids.{validate_player_id, validate_sha256_hex}
use civ4_turn_relay.Domain.Manifest.{optional}

pub data HashClassification : Type 0 where
  new_handoff_candidate reject_incoming idempotent_ack stale_replay journal_only_ack :
      HashClassification

pub record PriorAttemptEvidence : Type 0 where
  pub handoff_attempted_for_hash : Bool
  pub historically_accepted_for_hash : Bool

-- `value is not None and text == value`
unfoldable pub is_value : Option Text → Text → Bool
is_value none text = false
is_value (some value) text = text_eq text value

-- The tests after the validation of the arguments, in the order of the source.
unfoldable pub classify :
    Text → List Text → Text → Text → Option Text → PriorAttemptEvidence → HashClassification
classify digest hashes local_player_id current_player_id last_sender_id evidence =
    let is_latest = is_value (get_last? hashes) digest in
    let in_history = contains hashes digest in
    let is_older = in_history && not is_latest in
    if is_latest && text_eq local_player_id current_player_id
    then reject_incoming
    else if is_latest
        && is_value last_sender_id local_player_id
        && evidence.handoff_attempted_for_hash
    then idempotent_ack
    else if evidence.historically_accepted_for_hash
    then journal_only_ack
    else if is_older
    then stale_replay
    else if not in_history
    then new_handoff_candidate
    else stale_replay

unfoldable pub classify_candidate_hash :
    Text → List Text → Text → Text → Option Text → PriorAttemptEvidence → Option HashClassification
classify_candidate_hash candidate hashes local_player_id current_player_id last_sender_id evidence =
    do
      require (validate_sha256_hex candidate)
      require (validate_player_id local_player_id)
      require (validate_player_id current_player_id)
      require (optional validate_player_id last_sender_id)
      require (all_of validate_sha256_hex hashes)
      some (classify candidate hashes local_player_id current_player_id last_sender_id evidence)
