-- ===== src/Tests/LocalWitnesses.antt =====
-- The theorems on the local records, the decisions and the guarded launch, at concrete inputs.
use civ4_turn_relay.Prelude.{
  inl, starts_with, arith, text_eq, text_eq_iff, Bool, ◌≡◌, ◌≤◌, ◌≢◌, refl, true, false, some, none,
  [], ◌∷◌, codes, List, Text, Bytes, length, contains,
}
use civ4_turn_relay.Prelude.Dict.{lookup}
use civ4_turn_relay.Protocol.Journal.{InProgressHandoff, empty_journal, has_pair, in_progress_valid}
use civ4_turn_relay.Local.Journal.{Disk, empty_records}
use civ4_turn_relay.Local.Journal.Agreed.{IsAgreed}
use civ4_turn_relay.Local.Journal.Refines.{
  IsStored, IsRefined, begin_call, durable, in_memory, journal-IsRefined,
}
use civ4_turn_relay.Local.Records.Types.{
  verified_remote_valid, cursor_valid, baseline_valid, baseline_post_init, entry_paths,
  observation_valid, association_valid, close_valid, baseline_entry_valid, digests_valid,
  downloaded_save_valid, launch_attempt_valid, outgoing_valid, records_post_init, MatchLocalRecords,
  PlaySessionBaseline, StabilityObservation, ProcessAssociationRecord, PostCommitCloseRecord,
  records_valid,
}
use civ4_turn_relay.Domain.Ids.{
  validate_utc_timestamp, validate_client_id, validate_sha256_hex, validate_player_id,
  validate_operation_id, validate_game_id,
}
use civ4_turn_relay.Domain.Manifest.{all_distinct, Manifest}
use civ4_turn_relay.Domain.Paths.{validate_windows_local_path, any_char, split, all_of}
use civ4_turn_relay.Local.Detect.Observe.{
  observe_session, observe_directory, result_of, observe_files, observe_file, after_contained,
  after_stat, after_first_read, hash_at, is_known, entry_hashes, potential, add_candidate,
  after_second_read, candidate_of, conclude, sample_of, seen, start_of, FileView, excluded_hashes,
  observe_outgoing_candidates,
}
use civ4_turn_relay.Local.Detect.Samples.{
  bounded, filter, has_gap, in_session, is_stable, observation_of, prior_samples, times, Sample,
  session_of, merge_observations, observations_for_path, filter_session_observations,
}
use civ4_turn_relay.Local.Orchestrate.{same_hash, ProcessObservation}
use civ4_turn_relay.Process.Guard.{
  launch_valid, ProcessScanEntry, Answers, acquired, no_match, launched, is_target, is_lookalike,
  classify_scan_entries, execute_guarded_launch,
}
use civ4_turn_relay.Local.Evidence.{
  evidence_of, evidence_valid, construct, manifest_proves_exact_handoff, attribute, HandoffEvidence,
  operation_of, attribute_handoff_result, is_completed,
}
use civ4_turn_relay.Protocol.Classify.{is_value}
use civ4_turn_relay.Domain.Config.{my_turn_downloaded}
use civ4_turn_relay.Protocol.Handoff.Request.{HandoffResult, committed}
use civ4_turn_relay.Local.Records.Mappings
use civ4_turn_relay.Local.Records.Whole
use civ4_turn_relay.Local.Records.Json.{records-from_json_bytes}
use civ4_turn_relay.Local.Evidence.Exact.{IsProof, attribute_handoff_result-IsProof}
use civ4_turn_relay.Local.Detect.Types.{DetectionResult, one_candidate}
use civ4_turn_relay.Local.Detect.Merge.{merge_observations-bounded}
use civ4_turn_relay.Local.Detect.New.{is_new}
use civ4_turn_relay.Local.Detect.Excluded.{observe-new}
use civ4_turn_relay.Process.Guard.Scan.{first, verdict, classify_scan_entries-verdict}
use civ4_turn_relay.Process.Guard.Trace.{IsRun, execute_guarded_launch-IsRun}
use civ4_turn_relay.Tests.Codec.{loads-dumps}
use civ4_turn_relay.Tests.Inputs.{libraries, repeat, alice, bob, first_manifest, request}

abbrev moment : Text
moment = codes "2026-01-02T03:04:05Z"

abbrev hash : Text
hash = repeat 64 51

abbrev operation : Text
operation = codes "01234567-0123-0123-0123-0123456789ab"

abbrev save_path : Text
save_path = codes "C:/saves/new"

abbrev baseline : PlaySessionBaseline
baseline = record {
  recorded_at = moment;
  protocol_sequence = 0;
  accepted_sha256 = none;
  entries = [];
}

abbrev seen_before : StabilityObservation
seen_before = record {
  path = save_path;
  size_bytes = 3;
  observed_at_seconds = 1 ∷ [];
  mtime_ns = 5;
  session_protocol_sequence = 0;
  session_accepted_sha256 = none;
  session_baseline_recorded_at = moment;
}

abbrev association : ProcessAssociationRecord
association = record {
  protocol_sequence = 0;
  accepted_sha256 = none;
  pid = 7;
  process_start_time_utc = moment;
  process_create_time_ns = 9;
  executable_path = codes "C:/Civ4.exe";
  associated_at = moment;
}

abbrev pending : PostCommitCloseRecord
pending = record {
  game_id = codes "demo";
  source_protocol_sequence = 0;
  operation_id = operation;
  sha256 = hash;
  pid = 7;
  process_start_time_utc = moment;
  process_create_time_ns = 9;
  executable_path = codes "C:/Civ4.exe";
  close_requested = false;
}

abbrev records : MatchLocalRecords
records = record {
  game_id = codes "demo";
  schema_version = 1;
  verified_remote = some (record { protocol_sequence = 0; accepted_sha256 = none });
  downloaded_save = none;
  play_session_baseline = some baseline;
  outgoing_candidate = none;
  processed_outgoing_hashes = repeat 64 52 ∷ [];
  stability_observations = seen_before ∷ [];
  in_progress_handoff = none;
  attempted_handoff_hashes = [];
  historically_accepted_hashes = [];
  last_operational_state = some my_turn_downloaded;
  last_transition_reason = some (codes "accepted_save_ready");
  last_error_class = none;
  retry_count = 2;
  launch_attempt = none;
  process_association = some association;
  pending_post_commit_close = some pending;
}

records-from_json_bytes_example :
    Whole.from_json_bytes libraries (Mappings.to_json_bytes libraries records) ≡ some records
unfolding records_valid text_eq all_of starts_with contains validate_windows_local_path any_char
    split all_distinct in_progress_valid validate_utc_timestamp validate_client_id validate_game_id
    validate_operation_id validate_sha256_hex validate_player_id verified_remote_valid cursor_valid
    baseline_valid baseline_post_init entry_paths observation_valid association_valid close_valid
    baseline_entry_valid digests_valid downloaded_save_valid launch_attempt_valid outgoing_valid
    records_post_init
records-from_json_bytes_example = records-from_json_bytes libraries records loads-dumps refl

-- The manifest after the handoff of `request`.
abbrev after_handoff : Manifest
after_handoff = record first_manifest {
  protocol_sequence = 1;
  current_player_id = bob;
  last_sender_id = some alice;
  accepted_save = some (record {
    sha256 = hash;
    size_bytes = 3;
    remote_path = codes "saves/000001_333333333333.CivBeyondSwordSave";
    original_filename = codes "turn.CivBeyondSwordSave";
    accepted_at = moment;
  });
  accepted_save_hashes = hash ∷ [];
  previous_manifest_ref = some (codes "history/manifest-000000-000000000000.json");
  protocol = record { min_client_protocol = 1; last_operation_id = some operation };
}

abbrev result : HandoffResult
result = record {
  outcome = committed;
  manifest_changed = true;
  sha256 = hash;
  manifest = some after_handoff;
}

abbrev evidence : HandoffEvidence
evidence = record {
  outcome = committed;
  game_id = codes "demo";
  operation_id = operation;
  local_player_id = alice;
  sha256 = hash;
  size_bytes = 3;
  source_protocol_sequence = 0;
  result_protocol_sequence = 1;
}

attribute_handoff_result-IsProof_example :
    (m : Manifest) × (some after_handoff ≡ some m)
    × (hash ≡ libraries.sha256_hexdigest request.outgoing_bytes)
    × (IsProof libraries request committed 0 m evidence)
unfolding attribute_handoff_result is_completed text_eq attribute manifest_proves_exact_handoff
    operation_of is_value contains construct evidence_valid evidence_of validate_game_id
    validate_operation_id validate_player_id validate_sha256_hex
attribute_handoff_result-IsProof_example =
    attribute_handoff_result-IsProof libraries request result 0 evidence refl

abbrev running : ProcessObservation
running = record {
  pid = 7;
  process_start_time_utc = moment;
  process_create_time_ns = 9;
  executable_path = codes "C:/Civ4.exe";
  running = true;
}

abbrev sample : Sample
sample = record { path = save_path; size_bytes = 3; mtime_ns = 5; observed_at = 3 ∷ [] }

path-ne : (a b : Text) → text_eq a b ≡ false → a ≢ b
path-ne a b h = ground (arith, text_eq_iff a b)

merge_observations-bounded_example :
    (length (
        observations_for_path
          (merge_observations (session_of baseline) sample (seen_before ∷ seen_before ∷ []))
          save_path)
      ≤ 2)
    × (observations_for_path
          (merge_observations (session_of baseline) sample (seen_before ∷ seen_before ∷ []))
          (codes "C:/saves/old")
        ≡ observations_for_path
            (filter_session_observations (session_of baseline) (seen_before ∷ seen_before ∷ []))
            (codes "C:/saves/old"))
unfolding text_eq
merge_observations-bounded_example =
    merge_observations-bounded (session_of baseline) sample (seen_before ∷ seen_before ∷ [])
      (codes "C:/saves/old") (path-ne save_path (codes "C:/saves/old") refl)

-- Every two times are far enough apart, and stand sorted.
abbrev elapsed : Bytes → Bytes → Bool
elapsed a b = true

abbrev sorted : List Bytes → List Bytes
sorted times = times

abbrev view : FileView
view = record {
  is_symlink = false;
  is_file = true;
  is_matched = true;
  contained = some save_path;
  stat = some (3, 5);
  first_read = some (1 ∷ 2 ∷ 3 ∷ []);
  second_read = some (1 ∷ 2 ∷ 3 ∷ []);
}

abbrev detected : DetectionResult
detected = record {
  outcome = one_candidate;
  candidates = record { path = save_path; sha256 = hash; size_bytes = 3 } ∷ [];
  observations =
      merge_observations (session_of baseline)
        (record { path = save_path; size_bytes = 3; mtime_ns = 5; observed_at = 3 ∷ [] })
        (seen_before ∷ []);
  reason = none;
}

observe-new_example : all_of (is_new libraries records [] baseline 1000) detected.candidates ≡ true
unfolding observe_outgoing_candidates text_eq starts_with contains excluded_hashes
    validate_sha256_hex all_of any_char split validate_windows_local_path
    filter_session_observations merge_observations observations_for_path session_of outgoing_valid
    same_hash observe_session observe_directory result_of observe_files observe_file after_contained
    after_stat after_first_read hash_at is_known entry_hashes potential add_candidate
    after_second_read candidate_of conclude sample_of seen start_of bounded filter has_gap
    in_session is_stable observation_of prior_samples times
observe-new_example =
    observe-new libraries elapsed sorted (codes "C:/saves") records [] (3 ∷ []) 1000 baseline
      (some (view ∷ [])) detected refl refl

abbrev entries : List ProcessScanEntry
entries =
    record { pid = 3; executable_path = none; name = some (codes "Civ4.exe") }
    ∷ record { pid = 7; executable_path = some (codes "C:/Civ4.exe"); name = none }
    ∷ []

-- Stand-ins for `normpath`, `basename` and `casefold`.
abbrev same : Text → Text
same t = t

abbrev civ_name : Text → Text
civ_name t = codes "Civ4.exe"

classify_scan_entries-verdict_example :
    classify_scan_entries same civ_name same (codes "C:/Civ4.exe") entries
    ≡ verdict
        (first (is_target same civ_name same (codes "C:/Civ4.exe")) entries)
        (first (is_lookalike same civ_name same (codes "C:/Civ4.exe")) entries)
classify_scan_entries-verdict_example =
    classify_scan_entries-verdict same civ_name same (codes "C:/Civ4.exe") entries

abbrev answers : Answers
answers = record {
  acquisition = acquired;
  scan = some (record { outcome = no_match; pid = none });
  launch = some (record {
    outcome = launched;
    identity = some (record {
      pid = 7;
      process_start_time_utc = moment;
      process_create_time_ns = 9;
      executable_path = codes "C:/Civ4.exe";
    });
  });
  release = some (some (codes "CloseHandle"));
}

execute_guarded_launch-IsRun_example :
    IsRun answers (execute_guarded_launch answers).0 (execute_guarded_launch answers).1
unfolding execute_guarded_launch launch_valid
execute_guarded_launch-IsRun_example = execute_guarded_launch-IsRun answers refl

abbrev progress : InProgressHandoff
progress = record {
  game_id = codes "demo";
  operation_id = operation;
  client_id = operation;
  player_id = alice;
  sha256 = hash;
  step_reached = none;
  protocol_sequence = none;
}

abbrev disk : Disk
disk = record { is_readable = true; is_replaced = true }

fresh-IsStored : IsStored libraries (codes "demo") none (empty_records (codes "demo"))
unfolding records_valid empty_records records_post_init digests_valid all_of all_distinct
    validate_game_id text_eq
fresh-IsStored = record { valid = refl; own = refl; content = inl (refl, refl) }

fresh-IsAgreed : IsAgreed (codes "demo") (empty_records (codes "demo")) empty_journal
unfolding empty_records contains has_pair lookup
fresh-IsAgreed = record { attempts = λ h. refl; acceptances = λ h. refl; progress = refl }

journal-IsRefined_example :
    IsRefined libraries disk
      (codes "demo")
      (begin_call progress)
      none
      (durable libraries disk (codes "demo") (begin_call progress) none)
      (in_memory (begin_call progress) empty_journal)
journal-IsRefined_example =
    journal-IsRefined libraries loads-dumps disk (codes "demo") (begin_call progress) none
      (empty_records (codes "demo")) empty_journal fresh-IsStored fresh-IsAgreed
