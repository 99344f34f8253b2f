-- ===== src/Local/Journal.antt =====
-- local/journal.py and the state of one match in local/store.py: the durable journal of handoffs,
-- which lives in the match's `state.json`. The file's content is passed on, where no value is a
-- missing file; a call that raises gives no result.
pub mod Agreed
pub mod Returns
pub mod Refines
use civ4_turn_relay.Prelude.{
  if◌then◌else◌, Bool, not, ◌&&◌, ◌++◌, Option, none, some, List, [], ◌∷◌, Text, Bytes, text_eq,
  contains,
}
use civ4_turn_relay.Prelude.Maybe.{◌>>=◌, ◌>>◌, require}
use civ4_turn_relay.Domain.Libraries.{Libraries}
use civ4_turn_relay.Domain.Ids.{validate_game_id, validate_sha256_hex}
use civ4_turn_relay.Protocol.Classify.{PriorAttemptEvidence}
use civ4_turn_relay.Protocol.Journal.{InProgressHandoff, in_progress_valid}
use civ4_turn_relay.Local.Records.Types.{
  MatchLocalRecords, local_records_schema_version, records_post_init,
}
use civ4_turn_relay.Local.Records.Mappings.{to_json_bytes}
use civ4_turn_relay.Local.Records.Whole.{from_json_bytes}

-- `MatchLocalRecords(game_id=game_id)`
unfoldable pub empty_records : Text → MatchLocalRecords
empty_records game_id = record {
  game_id = game_id;
  schema_version = local_records_schema_version;
  verified_remote = none;
  downloaded_save = none;
  play_session_baseline = none;
  outgoing_candidate = none;
  processed_outgoing_hashes = [];
  stability_observations = [];
  in_progress_handoff = none;
  attempted_handoff_hashes = [];
  historically_accepted_hashes = [];
  last_operational_state = none;
  last_transition_reason = none;
  last_error_class = none;
  retry_count = 0;
  launch_attempt = none;
  process_association = none;
  pending_post_commit_close = none;
}

-- How the file system answers one call: the read, and the write of the new content, which replaces
-- the file as a whole or not at all.
pub record Disk : Type 0 where
  pub is_readable : Bool
  pub is_replaced : Bool

-- The records are those of the match.
unfoldable pub of_match : Text → Option MatchLocalRecords → Option MatchLocalRecords
of_match game_id none = none
of_match game_id (some r) = if text_eq r.game_id game_id then some r else none

-- `replace(records, …)`: the constructor raises on what is not valid.
unfoldable pub replaced : MatchLocalRecords → Option MatchLocalRecords
replaced r = if records_post_init r then some r else none

-- `_with_hash`
unfoldable pub with_hash : List Text → Text → List Text
with_hash hashes digest = if contains hashes digest then hashes else hashes ++ digest ∷ []

module _ (lib : Libraries) (disk : Disk) (game_id : Text) where
  unfoldable pub load_match_state_or_empty : Option Bytes → Option MatchLocalRecords
  load_match_state_or_empty none =
      require (validate_game_id game_id) >> some (empty_records game_id)
  load_match_state_or_empty (some content) =
      require (validate_game_id game_id)
      >> (require disk.is_readable >> of_match game_id (from_json_bytes lib content))

  unfoldable pub write_match_state :
      Option Bytes → MatchLocalRecords → Option MatchLocalRecords × Option Bytes
  write_match_state file r =
      if disk.is_replaced then (some r, some (to_json_bytes lib r)) else (none, file)

  -- What follows the mutator, which may raise.
  unfoldable pub after_mutator :
      Option Bytes
      → MatchLocalRecords
      → Option MatchLocalRecords
      → Option MatchLocalRecords × Option Bytes
  after_mutator file current none = (none, file)
  after_mutator file current (some updated) =
      if text_eq updated.game_id current.game_id
      then write_match_state file updated
      else (none, file)

  unfoldable pub after_load :
      (MatchLocalRecords → Option MatchLocalRecords)
      → Option Bytes
      → Option MatchLocalRecords
      → Option MatchLocalRecords × Option Bytes
  after_load mutator file none = (none, file)
  after_load mutator file (some current) = after_mutator file current (mutator current)

  unfoldable pub update_match_state :
      (MatchLocalRecords → Option MatchLocalRecords)
      → Option Bytes
      → Option MatchLocalRecords × Option Bytes
  update_match_state mutator file = after_load mutator file (load_match_state_or_empty file)

  unfoldable pub require_game_id : Text → Bool
  require_game_id g = validate_game_id g && text_eq g game_id

  unfoldable pub evidence_for_hash : Text → Text → Option Bytes → Option PriorAttemptEvidence
  evidence_for_hash g digest file = do
    require (require_game_id g && validate_sha256_hex digest)
    r ← load_match_state_or_empty file
    some (record {
      handoff_attempted_for_hash = contains r.attempted_handoff_hashes digest;
      historically_accepted_for_hash = contains r.historically_accepted_hashes digest;
    })

  unfoldable pub in_progress_handoff : Text → Option Bytes → Option (Option InProgressHandoff)
  in_progress_handoff g file = do
    require (require_game_id g)
    r ← load_match_state_or_empty file
    some r.in_progress_handoff

  -- The mutators.
  unfoldable pub begin_mutator : InProgressHandoff → MatchLocalRecords → Option MatchLocalRecords
  begin_mutator p r = replaced (record r {
    in_progress_handoff = some p;
    attempted_handoff_hashes = with_hash r.attempted_handoff_hashes p.sha256;
  })

  unfoldable pub clear_mutator : MatchLocalRecords → Option MatchLocalRecords
  clear_mutator r = elim r.in_progress_handoff [
    | none ↦ some r
    | some p ↦ replaced (record r { in_progress_handoff = none })
  ]

  unfoldable pub mark_mutator : Text → MatchLocalRecords → Option MatchLocalRecords
  mark_mutator step r = elim r.in_progress_handoff [
    | none ↦ none
    | some p ↦
        require (in_progress_valid (record p { step_reached = some step }))
        >> replaced
            (record r { in_progress_handoff = some (record p { step_reached = some step }) })
  ]

  unfoldable pub attempt_mutator : Text → MatchLocalRecords → Option MatchLocalRecords
  attempt_mutator digest r =
      if contains r.attempted_handoff_hashes digest
      then some r
      else replaced
          (record r { attempted_handoff_hashes = with_hash r.attempted_handoff_hashes digest })

  unfoldable pub acceptance_mutator : Text → MatchLocalRecords → Option MatchLocalRecords
  acceptance_mutator digest r =
      if contains r.historically_accepted_hashes digest
      then some r
      else replaced (record r {
        historically_accepted_hashes = with_hash r.historically_accepted_hashes digest;
      })

  -- A call that changes the file, if its arguments are valid.
  unfoldable pub guarded_update :
      Bool
      → (MatchLocalRecords → Option MatchLocalRecords)
      → Option Bytes
      → Option MatchLocalRecords × Option Bytes
  guarded_update ok mutator file = if ok then update_match_state mutator file else (none, file)

  -- The record is built by the caller, which raises if it is not valid.
  unfoldable pub begin_handoff :
      InProgressHandoff → Option Bytes → Option MatchLocalRecords × Option Bytes
  begin_handoff p =
      guarded_update (in_progress_valid p && require_game_id p.game_id) (begin_mutator p)

  unfoldable pub clear_in_progress : Text → Option Bytes → Option MatchLocalRecords × Option Bytes
  clear_in_progress g = guarded_update (require_game_id g) clear_mutator

  unfoldable pub mark_step : Text → Option Bytes → Option MatchLocalRecords × Option Bytes
  mark_step step = guarded_update (not (text_eq step [])) (mark_mutator step)

  unfoldable pub record_handoff_attempt :
      Text → Text → Option Bytes → Option MatchLocalRecords × Option Bytes
  record_handoff_attempt g digest =
      guarded_update (require_game_id g && validate_sha256_hex digest) (attempt_mutator digest)

  unfoldable pub record_historical_acceptance :
      Text → Text → Option Bytes → Option MatchLocalRecords × Option Bytes
  record_historical_acceptance g digest =
      guarded_update (require_game_id g && validate_sha256_hex digest) (acceptance_mutator digest)
