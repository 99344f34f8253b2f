-- ===== src/Local/Orchestrate.antt =====
-- local/orchestrate.py and local/intents.py: which commands a reconciliation gives to the outer
-- adapters.
pub mod Close
pub mod Start
pub mod Rule
use civ4_turn_relay.Prelude.{
  ℕ, ◌==◌, if◌then◌else◌, is_some, Bool, true, false, not, ◌&&◌, ◌||◌, Option, none, some, List, [],
  ◌∷◌, ◌++◌, Text, codes, text_eq,
}
use civ4_turn_relay.Domain.Config.{
  TurnHandlingMode, standard, fully_managed, OperationalState, reconciling,
  waiting_for_my_first_save, waiting_for_other_player, my_turn_downloaded, outgoing_save_detected,
  error,
}
use civ4_turn_relay.Local.Records.Types.{
  MatchLocalRecords, VerifiedRemoteRecord, LaunchAttemptRecord, ProcessAssociationRecord,
  PostCommitCloseRecord,
}
use civ4_turn_relay.Local.Evidence.{HandoffEvidence, is_completed}
use civ4_turn_relay.Local.Detect.Types.{
  DetectionResult, DetectionOutcome, one_candidate, stabilizing, multiple_candidates,
  missing_baseline,
}

pub data OrchestrationIntentKind : Type 0 where
  wait download_accepted_save start_civ resume_or_focus_civ prepare_or_send_handoff
        require_candidate_selection close_civ_after_commit show_post_commit_close_warning
        require_user_action retry :
      OrchestrationIntentKind

-- A payload has one member `reason`, or the members of the record that is to be closed, but
-- `game_id` and `close_requested`.
pub data Payload : Type 0 where
  reason : Text → Payload
  close_target_members : PostCommitCloseRecord → Payload

pub record OrchestrationIntent : Type 0 where
  pub kind : OrchestrationIntentKind
  pub payload : Option Payload

-- `OrchestrationIntent(kind)`
abbrev pub intent : OrchestrationIntentKind → OrchestrationIntent
intent kind = record { kind = kind; payload = none }

abbrev pub because : OrchestrationIntentKind → Text → OrchestrationIntent
because kind why = record { kind = kind; payload = some (reason why) }

pub record ProcessObservation : Type 0 where
  pub pid : ℕ
  pub process_start_time_utc : Text
  pub process_create_time_ns : ℕ
  pub executable_path : Text
  pub running : Bool

-- `observation_matches_association`
unfoldable pub observation_matches_association : Option ProcessObservation → ℕ → ℕ → Text → Bool
observation_matches_association none pid token path = false
observation_matches_association (some o) pid token path =
    o.pid == pid && o.process_create_time_ns == token && text_eq o.executable_path path

abbrev pub is_running : Option ProcessObservation → Bool
is_running none = false
is_running (some o) = o.running

unfoldable pub matches : Option ProcessAssociationRecord → Option ProcessObservation → Bool
matches none o = false
matches (some a) o =
    observation_matches_association o a.pid a.process_create_time_ns a.executable_path

-- `_matched_running_process`
unfoldable pub matched_running_process : MatchLocalRecords → Option ProcessObservation → Bool
matched_running_process r o = matches r.process_association o && is_running o

-- `_matched_exited_process`
unfoldable pub matched_exited_process : MatchLocalRecords → Option ProcessObservation → Bool
matched_exited_process r o = matches r.process_association o && not (is_running o)

unfoldable pub same_hash : Option Text → Option Text → Bool
same_hash none none = true
same_hash (some a) (some b) = text_eq a b
same_hash _ _ = false

abbrev pub is_attempt : Option VerifiedRemoteRecord → Option LaunchAttemptRecord → Bool
is_attempt (some v) (some a) =
    a.protocol_sequence == v.protocol_sequence && same_hash a.accepted_sha256 v.accepted_sha256
is_attempt _ _ = false

-- `_launch_already_attempted`
unfoldable pub launch_already_attempted : MatchLocalRecords → Bool
launch_already_attempted r = is_attempt r.verified_remote r.launch_attempt

-- `_post_commit_outcome`
unfoldable pub post_commit_outcome : Option HandoffEvidence → Bool
post_commit_outcome none = false
post_commit_outcome (some e) = is_completed e.outcome

-- The record of the process that the handoff entitles to close; its constructor accepts it, as the
-- evidence and the association are valid.
unfoldable pub close_of : HandoffEvidence → ProcessAssociationRecord → PostCommitCloseRecord
close_of e a = record {
  game_id = e.game_id;
  source_protocol_sequence = e.source_protocol_sequence;
  operation_id = e.operation_id;
  sha256 = e.sha256;
  pid = a.pid;
  process_start_time_utc = a.process_start_time_utc;
  process_create_time_ns = a.process_create_time_ns;
  executable_path = a.executable_path;
  close_requested = false;
}

unfoldable pub is_close_of : PostCommitCloseRecord → HandoffEvidence → Bool
is_close_of pending e =
    text_eq pending.operation_id e.operation_id
    && text_eq pending.sha256 e.sha256
    && pending.source_protocol_sequence == e.source_protocol_sequence

-- `_close_target`
unfoldable pub close_target :
    Option PostCommitCloseRecord
    → Option ProcessAssociationRecord
    → Option HandoffEvidence
    → Option PostCommitCloseRecord
close_target (some pending) association none = some pending
close_target (some pending) association (some e) =
    if is_close_of pending e then some pending else none
close_target none (some a) (some e) =
    if a.protocol_sequence == e.source_protocol_sequence then some (close_of e a) else none
close_target none _ _ = none

unfoldable pub chosen_target :
    MatchLocalRecords → Option HandoffEvidence → Option PostCommitCloseRecord
chosen_target r e =
    if post_commit_outcome e
    then close_target r.pending_post_commit_close r.process_association e
    else r.pending_post_commit_close

-- The target is not asked for yet, and is the process that was observed to run.
unfoldable pub may_close : PostCommitCloseRecord → Option ProcessObservation → Bool
may_close t o =
    not t.close_requested
    && observation_matches_association o t.pid t.process_create_time_ns t.executable_path
    && is_running o

unfoldable pub close_intents :
    Option PostCommitCloseRecord → Option ProcessObservation → List OrchestrationIntent
close_intents none o = []
close_intents (some t) o =
    if may_close t o
    then record { kind = close_civ_after_commit; payload = some (close_target_members t) } ∷ []
    else []

unfoldable pub is_multiple : Option DetectionResult → Bool
is_multiple none = false
is_multiple (some d) = elim d.outcome [ multiple_candidates ↦ true | _ ↦ false ]

unfoldable pub is_without_baseline : Option DetectionResult → Bool
is_without_baseline none = false
is_without_baseline (some d) = elim d.outcome [ missing_baseline ↦ true | _ ↦ false ]

-- `detection is None or detection.outcome is ONE_CANDIDATE`
unfoldable pub is_unambiguous : Option DetectionResult → Bool
is_unambiguous none = true
is_unambiguous (some d) = elim d.outcome [ one_candidate ↦ true | _ ↦ false ]

unfoldable pub has_outgoing : Option DetectionResult → Bool
has_outgoing none = false
has_outgoing (some d) = elim d.outcome [
  | one_candidate ↦ true
  | stabilizing ↦ true
  | multiple_candidates ↦ true
  | _ ↦ false
]

abbrev pub when : Bool → OrchestrationIntent → List OrchestrationIntent
when test i = if test then i ∷ [] else []

unfoldable pub is_launch_state : OperationalState → Bool
is_launch_state waiting_for_my_first_save = true
is_launch_state my_turn_downloaded = true
is_launch_state _ = false

unfoldable pub is_outgoing_state : OperationalState → Bool
is_outgoing_state outgoing_save_detected = true
is_outgoing_state _ = false

unfoldable pub is_error : OperationalState → Bool
is_error error = true
is_error _ = false

-- The launch decision of the Fully Managed mode, in a launch state.
unfoldable pub managed_launch :
    MatchLocalRecords
    → Option DetectionResult
    → Option ProcessObservation
    → Bool
    → List OrchestrationIntent
managed_launch r d o user =
    if matched_running_process r o
    then intent resume_or_focus_civ ∷ []
    else if has_outgoing d
    then because wait (codes "outgoing_save_activity") ∷ []
    else if launch_already_attempted r && not user
    then because require_user_action (codes "civ_exited_without_outgoing") ∷ []
    else if user
    then intent start_civ ∷ []
    else if not (launch_already_attempted r)
    then when (not (is_some r.process_association) || matched_exited_process r o) (intent start_civ)
    else []

unfoldable pub standard_launch :
    MatchLocalRecords → Option ProcessObservation → List OrchestrationIntent
standard_launch r o =
    if matched_running_process r o then intent resume_or_focus_civ ∷ [] else intent start_civ ∷ []

unfoldable pub launch_intents :
    TurnHandlingMode
    → OperationalState
    → MatchLocalRecords
    → Option DetectionResult
    → Option ProcessObservation
    → Bool
    → List OrchestrationIntent
launch_intents fully_managed state r d o user =
    if is_launch_state state then managed_launch r d o user else []
launch_intents standard state r d o user =
    if user && is_launch_state state then standard_launch r o else []

-- What follows the closing, in a state that does not wait.
unfoldable pub active_intents :
    TurnHandlingMode
    → OperationalState
    → MatchLocalRecords
    → Option DetectionResult
    → Option ProcessObservation
    → Bool
    → List OrchestrationIntent
active_intents mode state r d o user =
    when (is_multiple d) (intent require_candidate_selection)
    ++ (when (is_without_baseline d) (because require_user_action (codes "missing_baseline"))
        ++ (when (is_outgoing_state state && is_some r.play_session_baseline && is_unambiguous d)
              (intent prepare_or_send_handoff)
            ++ (launch_intents mode state r d o user ++ when (is_error state) (intent retry))))

unfoldable pub is_waiting : OperationalState → Bool
is_waiting waiting_for_other_player = true
is_waiting reconciling = true
is_waiting _ = false

unfoldable pub closing_intents :
    TurnHandlingMode
    → MatchLocalRecords
    → Option ProcessObservation
    → Option HandoffEvidence
    → List OrchestrationIntent
closing_intents standard r o e = []
closing_intents fully_managed r o e = close_intents (chosen_target r e) o

-- `decide_intents`
unfoldable pub decide_intents :
    TurnHandlingMode
    → OperationalState
    → MatchLocalRecords
    → Option DetectionResult
    → Option ProcessObservation
    → Option HandoffEvidence
    → Bool
    → List OrchestrationIntent
decide_intents mode state r d o e user =
    closing_intents mode r o e
    ++ (if is_waiting state then intent wait ∷ [] else active_intents mode state r d o user)
