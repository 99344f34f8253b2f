-- ===== src/Local/Records/Types.antt =====
-- local/records.py: the records and the tests of their constructors. A record that exists has passed
-- the test that is here called `…_valid`.
use civ4_turn_relay.Prelude.{
  ℕ, ◌==◌, ltb, leb, is_some, Bool, not, ◌&&◌, Option, List, [], ◌∷◌, Text, Bytes, text_eq,
}
use civ4_turn_relay.Domain.Libraries.{Libraries}
use civ4_turn_relay.Domain.Paths.{all_of, validate_windows_local_path}
use civ4_turn_relay.Domain.Ids.{
  validate_game_id, validate_operation_id, validate_sha256_hex, validate_utc_timestamp,
}
use civ4_turn_relay.Domain.Config.{OperationalState}
use civ4_turn_relay.Domain.Manifest.{optional, all_distinct}
use civ4_turn_relay.Protocol.Journal.{InProgressHandoff, in_progress_valid, not_empty}

abbrev pub local_records_schema_version : ℕ
local_records_schema_version = 1

pub record BaselineEntry : Type 0 where
  pub path : Text
  pub sha256 : Text
  pub size_bytes : ℕ

-- The size and the length of a sequence are natural numbers: the tests for negative ones are those
-- of the readers.
unfoldable pub baseline_entry_valid : Libraries → BaselineEntry → Bool
baseline_entry_valid lib e =
    validate_windows_local_path lib.is_windows_absolute e.path && validate_sha256_hex e.sha256

-- A sequence of 0 carries no accepted hash, a later one carries one: the tests that four of the
-- constructors share.
unfoldable pub cursor_valid : ℕ → Option Text → Bool
cursor_valid protocol_sequence accepted_sha256 =
    optional validate_sha256_hex accepted_sha256
    && not (protocol_sequence == 0 && is_some accepted_sha256)
    && not (ltb 0 protocol_sequence && not (is_some accepted_sha256))

pub record PlaySessionBaseline : Type 0 where
  pub recorded_at : Text
  pub protocol_sequence : ℕ
  pub accepted_sha256 : Option Text
  pub entries : List BaselineEntry

unfoldable pub entry_paths : List BaselineEntry → List Text
entry_paths [] = []
entry_paths (e ∷ es) = e.path ∷ entry_paths es

-- `PlaySessionBaseline.__post_init__`, on entries that exist.
unfoldable pub baseline_post_init : Libraries → PlaySessionBaseline → Bool
baseline_post_init lib b =
    validate_utc_timestamp lib b.recorded_at
    && cursor_valid b.protocol_sequence b.accepted_sha256
    && all_distinct (entry_paths b.entries)

-- The float is what stands for it in JSON.
pub record StabilityObservation : Type 0 where
  pub path : Text
  pub size_bytes : ℕ
  pub observed_at_seconds : Bytes
  pub mtime_ns : ℕ
  pub session_protocol_sequence : ℕ
  pub session_accepted_sha256 : Option Text
  pub session_baseline_recorded_at : Text

unfoldable pub observation_valid : Libraries → StabilityObservation → Bool
observation_valid lib o =
    validate_windows_local_path lib.is_windows_absolute o.path
    && optional validate_sha256_hex o.session_accepted_sha256
    && validate_utc_timestamp lib o.session_baseline_recorded_at

pub record PostCommitCloseRecord : Type 0 where
  pub game_id : Text
  pub source_protocol_sequence : ℕ
  pub operation_id : Text
  pub sha256 : Text
  pub pid : ℕ
  pub process_start_time_utc : Text
  pub process_create_time_ns : ℕ
  pub executable_path : Text
  pub close_requested : Bool

unfoldable pub close_valid : Libraries → PostCommitCloseRecord → Bool
close_valid lib c =
    validate_game_id c.game_id
    && validate_operation_id c.operation_id
    && validate_sha256_hex c.sha256
    && ltb 0 c.pid
    && validate_utc_timestamp lib c.process_start_time_utc
    && ltb 0 c.process_create_time_ns
    && validate_windows_local_path lib.is_windows_absolute c.executable_path

pub record VerifiedRemoteRecord : Type 0 where
  pub protocol_sequence : ℕ
  pub accepted_sha256 : Option Text

unfoldable pub verified_remote_valid : VerifiedRemoteRecord → Bool
verified_remote_valid v = cursor_valid v.protocol_sequence v.accepted_sha256

pub record DownloadedSaveRecord : Type 0 where
  pub local_path : Text
  pub sha256 : Text
  pub size_bytes : ℕ
  pub protocol_sequence : ℕ

unfoldable pub downloaded_save_valid : Libraries → DownloadedSaveRecord → Bool
downloaded_save_valid lib d =
    validate_windows_local_path lib.is_windows_absolute d.local_path
    && validate_sha256_hex d.sha256
    && leb 1 d.protocol_sequence

pub record OutgoingCandidateRecord : Type 0 where
  pub path : Text
  pub sha256 : Text
  pub size_bytes : ℕ

unfoldable pub outgoing_valid : Libraries → OutgoingCandidateRecord → Bool
outgoing_valid lib o =
    validate_windows_local_path lib.is_windows_absolute o.path && validate_sha256_hex o.sha256

pub record LaunchAttemptRecord : Type 0 where
  pub protocol_sequence : ℕ
  pub accepted_sha256 : Option Text
  pub attempted_at : Text

unfoldable pub launch_attempt_valid : Libraries → LaunchAttemptRecord → Bool
launch_attempt_valid lib a =
    validate_utc_timestamp lib a.attempted_at && cursor_valid a.protocol_sequence a.accepted_sha256

pub record ProcessAssociationRecord : Type 0 where
  pub protocol_sequence : ℕ
  pub accepted_sha256 : Option Text
  pub pid : ℕ
  pub process_start_time_utc : Text
  pub process_create_time_ns : ℕ
  pub executable_path : Text
  pub associated_at : Text

unfoldable pub association_valid : Libraries → ProcessAssociationRecord → Bool
association_valid lib a =
    ltb 0 a.pid
    && validate_utc_timestamp lib a.process_start_time_utc
    && ltb 0 a.process_create_time_ns
    && validate_windows_local_path lib.is_windows_absolute a.executable_path
    && validate_utc_timestamp lib a.associated_at
    && cursor_valid a.protocol_sequence a.accepted_sha256

pub record MatchLocalRecords : Type 0 where
  pub game_id : Text
  pub schema_version : ℕ
  pub verified_remote : Option VerifiedRemoteRecord
  pub downloaded_save : Option DownloadedSaveRecord
  pub play_session_baseline : Option PlaySessionBaseline
  pub outgoing_candidate : Option OutgoingCandidateRecord
  pub processed_outgoing_hashes : List Text
  pub stability_observations : List StabilityObservation
  pub in_progress_handoff : Option InProgressHandoff
  pub attempted_handoff_hashes : List Text
  pub historically_accepted_hashes : List Text
  pub last_operational_state : Option OperationalState
  pub last_transition_reason : Option Text
  pub last_error_class : Option Text
  pub retry_count : ℕ
  pub launch_attempt : Option LaunchAttemptRecord
  pub process_association : Option ProcessAssociationRecord
  pub pending_post_commit_close : Option PostCommitCloseRecord

-- `_canonicalize_digest_tuple`
unfoldable pub digests_valid : List Text → Bool
digests_valid hashes = all_of validate_sha256_hex hashes && all_distinct hashes

-- `MatchLocalRecords.__post_init__`, on members that exist.
unfoldable pub records_post_init : MatchLocalRecords → Bool
records_post_init r =
    validate_game_id r.game_id
    && r.schema_version == local_records_schema_version
    && digests_valid r.processed_outgoing_hashes
    && optional (λ (p : InProgressHandoff). text_eq p.game_id r.game_id) r.in_progress_handoff
    && digests_valid r.attempted_handoff_hashes
    && digests_valid r.historically_accepted_hashes
    && not_empty r.last_transition_reason
    && not_empty r.last_error_class
    && optional (λ (c : PostCommitCloseRecord). text_eq c.game_id r.game_id)
        r.pending_post_commit_close

unfoldable pub baseline_valid : Libraries → PlaySessionBaseline → Bool
baseline_valid lib b = all_of (baseline_entry_valid lib) b.entries && baseline_post_init lib b

-- The members exist, and the constructor returns.
unfoldable pub records_valid : Libraries → MatchLocalRecords → Bool
records_valid lib r =
    optional verified_remote_valid r.verified_remote
    && optional (downloaded_save_valid lib) r.downloaded_save
    && optional (baseline_valid lib) r.play_session_baseline
    && optional (outgoing_valid lib) r.outgoing_candidate
    && all_of (observation_valid lib) r.stability_observations
    && optional in_progress_valid r.in_progress_handoff
    && optional (launch_attempt_valid lib) r.launch_attempt
    && optional (association_valid lib) r.process_association
    && optional (close_valid lib) r.pending_post_commit_close
    && records_post_init r
