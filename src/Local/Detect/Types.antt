-- ===== src/Local/Detect/Types.antt =====
-- local/detect.py: the outcomes of a detection.
use civ4_turn_relay.Prelude.{Option, List, Text}
use civ4_turn_relay.Local.Records.Types.{OutgoingCandidateRecord, StabilityObservation}

pub data DetectionOutcome : Type 0 where
  no_candidate stabilizing one_candidate multiple_candidates missing_baseline io_failure
        containment_failure :
      DetectionOutcome

pub record DetectionResult : Type 0 where
  pub outcome : DetectionOutcome
  pub candidates : List OutgoingCandidateRecord
  pub observations : List StabilityObservation
  pub reason : Option Text
