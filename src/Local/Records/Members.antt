-- ===== src/Local/Records/Members.antt =====
-- local/records.py: the readers of the members of a record; no value where one raises.
use civ4_turn_relay.Prelude.{Option, some, List, [], ◌∷◌, Text, codes}
use civ4_turn_relay.Prelude.Maybe.{◌>>=◌, ◌>>◌, require}
use civ4_turn_relay.Domain.Json.{Fields}
use civ4_turn_relay.Domain.Libraries.{Libraries}
use civ4_turn_relay.Domain.Serialization.{
  check_exact_keys, get_string, get_optional_string, get_integer, get_boolean,
}
use civ4_turn_relay.Local.Records.Types.{
  PostCommitCloseRecord, VerifiedRemoteRecord, DownloadedSaveRecord, OutgoingCandidateRecord,
  LaunchAttemptRecord, ProcessAssociationRecord, close_valid, verified_remote_valid,
  downloaded_save_valid, outgoing_valid, launch_attempt_valid, association_valid,
}

abbrev pub close_keys : List Text
close_keys =
    codes "close_requested"
    ∷ codes "executable_path"
    ∷ codes "game_id"
    ∷ codes "operation_id"
    ∷ codes "pid"
    ∷ codes "process_create_time_ns"
    ∷ codes "process_start_time_utc"
    ∷ codes "sha256"
    ∷ codes "source_protocol_sequence"
    ∷ []

unfoldable pub close_from_mapping : Libraries → Fields → Option PostCommitCloseRecord
close_from_mapping lib mapping = do
  require (check_exact_keys mapping close_keys)
  game_id ← get_string mapping (codes "game_id")
  source_protocol_sequence ← get_integer mapping (codes "source_protocol_sequence")
  operation_id ← get_string mapping (codes "operation_id")
  sha256 ← get_string mapping (codes "sha256")
  pid ← get_integer mapping (codes "pid")
  process_start_time_utc ← get_string mapping (codes "process_start_time_utc")
  process_create_time_ns ← get_integer mapping (codes "process_create_time_ns")
  executable_path ← get_string mapping (codes "executable_path")
  close_requested ← get_boolean mapping (codes "close_requested")
  let r : PostCommitCloseRecord = record {
    game_id = game_id;
    source_protocol_sequence = source_protocol_sequence;
    operation_id = operation_id;
    sha256 = sha256;
    pid = pid;
    process_start_time_utc = process_start_time_utc;
    process_create_time_ns = process_create_time_ns;
    executable_path = executable_path;
    close_requested = close_requested;
  }
  require (close_valid lib r)
  some r

abbrev pub verified_keys : List Text
verified_keys = codes "accepted_sha256" ∷ codes "protocol_sequence" ∷ []

unfoldable pub verified_from_mapping : Fields → Option VerifiedRemoteRecord
verified_from_mapping mapping = do
  require (check_exact_keys mapping verified_keys)
  protocol_sequence ← get_integer mapping (codes "protocol_sequence")
  accepted_sha256 ← get_optional_string mapping (codes "accepted_sha256")
  let r : VerifiedRemoteRecord = record {
    protocol_sequence = protocol_sequence;
    accepted_sha256 = accepted_sha256;
  }
  require (verified_remote_valid r)
  some r

abbrev pub downloaded_keys : List Text
downloaded_keys =
    codes "local_path" ∷ codes "protocol_sequence" ∷ codes "sha256" ∷ codes "size_bytes" ∷ []

unfoldable pub downloaded_from_mapping : Libraries → Fields → Option DownloadedSaveRecord
downloaded_from_mapping lib mapping = do
  require (check_exact_keys mapping downloaded_keys)
  local_path ← get_string mapping (codes "local_path")
  sha256 ← get_string mapping (codes "sha256")
  size_bytes ← get_integer mapping (codes "size_bytes")
  protocol_sequence ← get_integer mapping (codes "protocol_sequence")
  let r : DownloadedSaveRecord = record {
    local_path = local_path;
    sha256 = sha256;
    size_bytes = size_bytes;
    protocol_sequence = protocol_sequence;
  }
  require (downloaded_save_valid lib r)
  some r

abbrev pub outgoing_keys : List Text
outgoing_keys = codes "path" ∷ codes "sha256" ∷ codes "size_bytes" ∷ []

unfoldable pub outgoing_from_mapping : Libraries → Fields → Option OutgoingCandidateRecord
outgoing_from_mapping lib mapping = do
  require (check_exact_keys mapping outgoing_keys)
  path ← get_string mapping (codes "path")
  sha256 ← get_string mapping (codes "sha256")
  size_bytes ← get_integer mapping (codes "size_bytes")
  let r : OutgoingCandidateRecord = record { path = path; sha256 = sha256; size_bytes = size_bytes }
  require (outgoing_valid lib r)
  some r

abbrev pub launch_keys : List Text
launch_keys = codes "accepted_sha256" ∷ codes "attempted_at" ∷ codes "protocol_sequence" ∷ []

unfoldable pub launch_from_mapping : Libraries → Fields → Option LaunchAttemptRecord
launch_from_mapping lib mapping = do
  require (check_exact_keys mapping launch_keys)
  protocol_sequence ← get_integer mapping (codes "protocol_sequence")
  accepted_sha256 ← get_optional_string mapping (codes "accepted_sha256")
  attempted_at ← get_string mapping (codes "attempted_at")
  let r : LaunchAttemptRecord = record {
    protocol_sequence = protocol_sequence;
    accepted_sha256 = accepted_sha256;
    attempted_at = attempted_at;
  }
  require (launch_attempt_valid lib r)
  some r

abbrev pub association_keys : List Text
association_keys =
    codes "accepted_sha256"
    ∷ codes "associated_at"
    ∷ codes "executable_path"
    ∷ codes "pid"
    ∷ codes "process_create_time_ns"
    ∷ codes "process_start_time_utc"
    ∷ codes "protocol_sequence"
    ∷ []

unfoldable pub association_from_mapping : Libraries → Fields → Option ProcessAssociationRecord
association_from_mapping lib mapping = do
  require (check_exact_keys mapping association_keys)
  protocol_sequence ← get_integer mapping (codes "protocol_sequence")
  accepted_sha256 ← get_optional_string mapping (codes "accepted_sha256")
  pid ← get_integer mapping (codes "pid")
  process_start_time_utc ← get_string mapping (codes "process_start_time_utc")
  process_create_time_ns ← get_integer mapping (codes "process_create_time_ns")
  executable_path ← get_string mapping (codes "executable_path")
  associated_at ← get_string mapping (codes "associated_at")
  let r : ProcessAssociationRecord = record {
    protocol_sequence = protocol_sequence;
    accepted_sha256 = accepted_sha256;
    pid = pid;
    process_start_time_utc = process_start_time_utc;
    process_create_time_ns = process_create_time_ns;
    executable_path = executable_path;
    associated_at = associated_at;
  }
  require (association_valid lib r)
  some r
