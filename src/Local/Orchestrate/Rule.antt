-- ===== src/Local/Orchestrate/Rule.antt =====
-- local/orchestrate.py: the rule by which Civilization is started, stated over the records.
use civ4_turn_relay.Prelude.{◌≡◌, ◌⊎◌, Bool, true, false, Option, none, some}
use civ4_turn_relay.Domain.Config.{
  TurnHandlingMode, standard, fully_managed, OperationalState, waiting_for_my_first_save,
  my_turn_downloaded,
}
use civ4_turn_relay.Local.Records.Types.{
  MatchLocalRecords, VerifiedRemoteRecord, LaunchAttemptRecord, ProcessAssociationRecord,
}
use civ4_turn_relay.Local.Detect.Types.{
  DetectionResult, one_candidate, stabilizing, multiple_candidates,
}
use civ4_turn_relay.Local.Orchestrate.{ProcessObservation}

-- The process that was launched for this match is observed, by its id, its creation token and its path.
pub record IsOurs (r : MatchLocalRecords) (o : Option ProcessObservation) (running : Bool)
    : Type 0 where
  pub association : ProcessAssociationRecord
  pub observation : ProcessObservation
  pub stands : r.process_association ≡ some association
  pub seen : o ≡ some observation
  pub pid : observation.pid ≡ association.pid
  pub token : observation.process_create_time_ns ≡ association.process_create_time_ns
  pub path : observation.executable_path ≡ association.executable_path
  pub runs : observation.running ≡ running

-- A launch was attempted for the accepted save that was verified last.
pub record IsAttempted (r : MatchLocalRecords) : Type 0 where
  pub verified : VerifiedRemoteRecord
  pub attempt : LaunchAttemptRecord
  pub is_verified : r.verified_remote ≡ some verified
  pub is_attempted : r.launch_attempt ≡ some attempt
  pub sequence : attempt.protocol_sequence ≡ verified.protocol_sequence
  pub digest : attempt.accepted_sha256 ≡ verified.accepted_sha256

-- An outgoing save was found, or may still be written.
pub data IsOutgoing : Option DetectionResult → Type 0 where
  found : (d : DetectionResult) → d.outcome ≡ one_candidate → IsOutgoing (some d)
  being_written : (d : DetectionResult) → d.outcome ≡ stabilizing → IsOutgoing (some d)
  ambiguous : (d : DetectionResult) → d.outcome ≡ multiple_candidates → IsOutgoing (some d)

-- In a state to launch from, where our own process does not run: in the Standard mode on the user's
-- request alone; in the Fully Managed mode without an outgoing save, on the request or, once for the
-- accepted save, where no process of ours was recorded or it was seen to have ended.
abbrev pub IsStart :
    TurnHandlingMode
    → OperationalState
    → MatchLocalRecords
    → Option DetectionResult
    → Option ProcessObservation
    → Bool
    → Type 0
IsStart standard state r d o user =
    ((state ≡ waiting_for_my_first_save) ⊎ (state ≡ my_turn_downloaded))
    × (¬ (IsOurs r o true))
    × (user ≡ true)
IsStart fully_managed state r d o user =
    ((state ≡ waiting_for_my_first_save) ⊎ (state ≡ my_turn_downloaded))
    × (¬ (IsOurs r o true))
    × (¬ (IsOutgoing d))
    × ((user ≡ true)
        ⊎ ((¬ (IsAttempted r)) × ((r.process_association ≡ none) ⊎ (IsOurs r o false))))
