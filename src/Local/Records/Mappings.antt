-- ===== src/Local/Records/Mappings.antt =====
-- local/records.py and protocol/journal.py: the mappings that the records are written as.
use civ4_turn_relay.Prelude.{ℕ, Option, none, some, List, [], ◌∷◌, Text, Bytes, codes}
use civ4_turn_relay.Domain.Json.{
  Value, null, boolean, integer, real, string, array, object, Fields, end, field, from_list,
}
use civ4_turn_relay.Domain.Libraries.{Libraries}
use civ4_turn_relay.Domain.Config.{
  OperationalState, reconciling, waiting_for_my_first_save, waiting_for_other_player, downloading,
  my_turn_downloaded, civ_running, outgoing_save_detected, uploading, error,
}
use civ4_turn_relay.Domain.Manifest.Codec.{optional_string, hash_values}
use civ4_turn_relay.Protocol.Journal.{InProgressHandoff}
use civ4_turn_relay.Local.Records.Types.{
  BaselineEntry, PlaySessionBaseline, StabilityObservation, PostCommitCloseRecord,
  VerifiedRemoteRecord, DownloadedSaveRecord, OutgoingCandidateRecord, LaunchAttemptRecord,
  ProcessAssociationRecord, MatchLocalRecords,
}

abbrev pub optional_integer : Option ℕ → Value
optional_integer none = null
optional_integer (some n) = integer n

-- `InProgressHandoff.to_mapping`
unfoldable pub in_progress_to_mapping : InProgressHandoff → Fields
in_progress_to_mapping p = field (codes "client_id") (string p.client_id) (
    field (codes "game_id") (string p.game_id) (
      field (codes "operation_id") (string p.operation_id) (
        field (codes "player_id") (string p.player_id) (
          field (codes "protocol_sequence") (optional_integer p.protocol_sequence) (
            field (codes "sha256") (string p.sha256)
              (field (codes "step_reached") (optional_string p.step_reached) end))))))

unfoldable pub entry_to_mapping : BaselineEntry → Fields
entry_to_mapping e = field (codes "path") (string e.path) (
    field (codes "sha256") (string e.sha256)
      (field (codes "size_bytes") (integer e.size_bytes) end))

unfoldable pub entry_values : List BaselineEntry → List Value
entry_values [] = []
entry_values (e ∷ es) = object (entry_to_mapping e) ∷ entry_values es

unfoldable pub baseline_to_mapping : PlaySessionBaseline → Fields
baseline_to_mapping b = field (codes "accepted_sha256") (optional_string b.accepted_sha256) (
    field (codes "entries") (array (from_list (entry_values b.entries))) (
      field (codes "protocol_sequence") (integer b.protocol_sequence)
        (field (codes "recorded_at") (string b.recorded_at) end)))

unfoldable pub observation_to_mapping : StabilityObservation → Fields
observation_to_mapping o = field (codes "mtime_ns") (integer o.mtime_ns) (
    field (codes "observed_at_seconds") (real o.observed_at_seconds) (
      field (codes "path") (string o.path) (
        field (codes "session_accepted_sha256") (optional_string o.session_accepted_sha256) (
          field (codes "session_baseline_recorded_at") (string o.session_baseline_recorded_at) (
            field (codes "session_protocol_sequence") (integer o.session_protocol_sequence)
              (field (codes "size_bytes") (integer o.size_bytes) end))))))

unfoldable pub observation_values : List StabilityObservation → List Value
observation_values [] = []
observation_values (o ∷ os) = object (observation_to_mapping o) ∷ observation_values os

unfoldable pub close_to_mapping : PostCommitCloseRecord → Fields
close_to_mapping c = field (codes "close_requested") (boolean c.close_requested) (
    field (codes "executable_path") (string c.executable_path) (
      field (codes "game_id") (string c.game_id) (
        field (codes "operation_id") (string c.operation_id) (
          field (codes "pid") (integer c.pid) (
            field (codes "process_create_time_ns") (integer c.process_create_time_ns) (
              field (codes "process_start_time_utc") (string c.process_start_time_utc) (
                field (codes "sha256") (string c.sha256) (
                  field (codes "source_protocol_sequence") (integer c.source_protocol_sequence)
                    end))))))))

unfoldable pub verified_to_mapping : VerifiedRemoteRecord → Fields
verified_to_mapping v =
    field (codes "accepted_sha256") (optional_string v.accepted_sha256)
      (field (codes "protocol_sequence") (integer v.protocol_sequence) end)

unfoldable pub downloaded_to_mapping : DownloadedSaveRecord → Fields
downloaded_to_mapping d = field (codes "local_path") (string d.local_path) (
    field (codes "protocol_sequence") (integer d.protocol_sequence) (
      field (codes "sha256") (string d.sha256)
        (field (codes "size_bytes") (integer d.size_bytes) end)))

unfoldable pub outgoing_to_mapping : OutgoingCandidateRecord → Fields
outgoing_to_mapping o = field (codes "path") (string o.path) (
    field (codes "sha256") (string o.sha256)
      (field (codes "size_bytes") (integer o.size_bytes) end))

unfoldable pub launch_to_mapping : LaunchAttemptRecord → Fields
launch_to_mapping a = field (codes "accepted_sha256") (optional_string a.accepted_sha256) (
    field (codes "attempted_at") (string a.attempted_at)
      (field (codes "protocol_sequence") (integer a.protocol_sequence) end))

unfoldable pub association_to_mapping : ProcessAssociationRecord → Fields
association_to_mapping a = field (codes "accepted_sha256") (optional_string a.accepted_sha256) (
    field (codes "associated_at") (string a.associated_at) (
      field (codes "executable_path") (string a.executable_path) (
        field (codes "pid") (integer a.pid) (
          field (codes "process_create_time_ns") (integer a.process_create_time_ns) (
            field (codes "process_start_time_utc") (string a.process_start_time_utc)
              (field (codes "protocol_sequence") (integer a.protocol_sequence) end))))))

-- The values of `OperationalState`.
unfoldable pub state_name : OperationalState → Text
state_name reconciling = codes "RECONCILING"
state_name waiting_for_my_first_save = codes "WAITING_FOR_MY_FIRST_SAVE"
state_name waiting_for_other_player = codes "WAITING_FOR_OTHER_PLAYER"
state_name downloading = codes "DOWNLOADING"
state_name my_turn_downloaded = codes "MY_TURN_DOWNLOADED"
state_name civ_running = codes "CIV_RUNNING"
state_name outgoing_save_detected = codes "OUTGOING_SAVE_DETECTED"
state_name uploading = codes "UPLOADING"
state_name error = codes "ERROR"

-- `None if x is None else …`
abbrev pub nullable {ℓ} : {A : Type ℓ} → (A → Value) → Option A → Value
nullable write none = null
nullable write (some a) = write a

-- `MatchLocalRecords.to_mapping`
unfoldable pub to_mapping : MatchLocalRecords → Fields
to_mapping r =
    field (codes "attempted_handoff_hashes")
      (array (from_list (hash_values r.attempted_handoff_hashes)))
      (field (codes "downloaded_save")
        (nullable (λ d. object (downloaded_to_mapping d)) r.downloaded_save)
        (field (codes "game_id") (string r.game_id) (
          field (codes "historically_accepted_hashes")
            (array (from_list (hash_values r.historically_accepted_hashes)))
            (field (codes "in_progress_handoff")
              (nullable (λ p. object (in_progress_to_mapping p)) r.in_progress_handoff)
              (field (codes "last_error_class") (optional_string r.last_error_class) (
                field (codes "last_operational_state")
                  (nullable (λ s. string (state_name s)) r.last_operational_state)
                  (field (codes "last_transition_reason") (optional_string r.last_transition_reason)
                    (field (codes "launch_attempt")
                      (nullable (λ a. object (launch_to_mapping a)) r.launch_attempt)
                      (field (codes "outgoing_candidate")
                        (nullable (λ o. object (outgoing_to_mapping o)) r.outgoing_candidate)
                        (field (codes "play_session_baseline")
                          (nullable (λ b. object (baseline_to_mapping b)) r.play_session_baseline)
                          (field (codes "pending_post_commit_close")
                            (nullable (λ c. object (close_to_mapping c))
                              r.pending_post_commit_close)
                            (field (codes "process_association")
                              (nullable (λ a. object (association_to_mapping a))
                                r.process_association)
                              (field (codes "processed_outgoing_hashes")
                                (array (from_list (hash_values r.processed_outgoing_hashes)))
                                (field (codes "retry_count") (integer r.retry_count) (
                                  field (codes "schema_version") (integer r.schema_version) (
                                    field (codes "stability_observations")
                                      (array
                                        (from_list (observation_values r.stability_observations)))
                                      (field (codes "verified_remote")
                                        (nullable (λ v. object (verified_to_mapping v))
                                          r.verified_remote)
                                        end)))))))))))))))))

-- `MatchLocalRecords.to_json_bytes`
unfoldable pub to_json_bytes : Libraries → MatchLocalRecords → Bytes
to_json_bytes lib r = lib.json_dumps (object (to_mapping r))
