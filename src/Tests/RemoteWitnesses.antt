-- ===== src/Tests/RemoteWitnesses.antt =====
-- The theorems on the download, the removal of temporary objects, the creation of a match and the
-- recovery of a handoff, at a concrete match.
use civ4_turn_relay.Protocol.Action.{pure, call, ensure, ◌>>=◌, World}
use civ4_turn_relay.Domain.Ids.{
  validate_operation_id, validate_utc_timestamp, validate_client_id, validate_player_id,
  validate_game_id,
}
use civ4_turn_relay.Domain.Serialization.{
  get_string, check_exact_keys, has_key, is_strict, parse_json_object_bytes,
}
use civ4_turn_relay.Tests.Codec.{write, read, loads-dumps}
use civ4_turn_relay.Protocol.Lock.Inspect.{
  document_observation, inspection_valid, observed, after_read, after_list, LockInspection, bare,
  readable, inspect_upload_lock,
}
use civ4_turn_relay.Protocol.Paths.{upload_lock_json, upload_lock_dir, under, manifest}
use civ4_turn_relay.Storage.Fake.{
  read_file, fault_scope, list_dir, FakeStorage, fake, default_capabilities,
}
use civ4_turn_relay.Domain.Paths.{split, validate_remote_relative_path, validate_original_filename}
use civ4_turn_relay.Protocol.Temporary.Candidates.{
  basename, protected_by_operation, temporary_prefix,
}
use civ4_turn_relay.Prelude.Dict.{lookup}
use civ4_turn_relay.Storage.Snapshot.{file_at, list_body, directory_at}
use civ4_turn_relay.Protocol.Handoff.Request.{request_valid}
use civ4_turn_relay.Prelude.{
  inl, contains, ◌≡◌, refl, some, none, [], ◌∷◌, codes, List, Text, text_eq, starts_with,
}
use civ4_turn_relay.Domain.Manifest.{Manifest, AcceptedSave}
use civ4_turn_relay.Domain.Manifest.Codec.{to_json_bytes}
use civ4_turn_relay.Domain.Config.{MatchConfig, standard}
use civ4_turn_relay.Storage.Fake.Effects
use civ4_turn_relay.Storage.Fake.Laws.{fake_laws}
use civ4_turn_relay.Storage.Faults
use civ4_turn_relay.Protocol.Journal.{empty_journal}
use civ4_turn_relay.Protocol.Lock.Document
use civ4_turn_relay.Protocol.Lock.Document.{LockDocument}
use civ4_turn_relay.Protocol.Lock.Acquire.{acquire_or_resume_upload_lock}
use civ4_turn_relay.Protocol.Handoff.Commit.{lock_request, commit_handoff}
use civ4_turn_relay.Protocol.Download.{DownloadRequest, download_accepted_save}
use civ4_turn_relay.Protocol.Download.Sound.{Reports}
use civ4_turn_relay.Protocol.Download.Quiet.{download-file}
use civ4_turn_relay.Protocol.Temporary.Cleanup.{cleanup_temporary_orphans}
use civ4_turn_relay.Protocol.Temporary.Items
use civ4_turn_relay.Protocol.Temporary.Items.{cleanup-Reports}
use civ4_turn_relay.Protocol.Temporary.Removal.{staged_manifest, cleanup-file, cleanup-protected}
use civ4_turn_relay.Protocol.Initialize.{initialize_match}
use civ4_turn_relay.Protocol.Initialize.Fresh.{IsInitial, initialize-existing, initialize-IsInitial}
use civ4_turn_relay.Local.Evidence.Recovery.{IsRecoverable, commit_handoff-IsRecoverable}
use civ4_turn_relay.Tests.Inputs.{
  libraries, repeat, alice, bob, first_manifest, request, storage, world,
}

abbrev operation : Text
operation = codes "01234567-0123-0123-0123-0123456789ab"

abbrev accepted : AcceptedSave
accepted = record {
  sha256 = repeat 64 51;
  size_bytes = 3;
  remote_path = codes "saves/000001_333333333333.CivBeyondSwordSave";
  original_filename = codes "turn.CivBeyondSwordSave";
  accepted_at = codes "2026-01-02T03:04:05Z";
}

-- Alice has sent, and it is the turn of Bob.
abbrev second_manifest : Manifest
second_manifest = record first_manifest {
  protocol_sequence = 1;
  current_player_id = bob;
  last_sender_id = some alice;
  accepted_save = some accepted;
  accepted_save_hashes = accepted.sha256 ∷ [];
  previous_manifest_ref = some (codes "history/manifest-000000-000000000000.json");
  protocol = record { min_client_protocol = 1; last_operation_id = some operation };
}

abbrev sent_storage : FakeStorage
sent_storage = record {
  capabilities = default_capabilities;
  snapshot = record {
    directories = storage.snapshot.directories;
    files =
        (codes "demo/manifest.json", to_json_bytes libraries second_manifest)
        ∷ (codes "demo/saves/000001_333333333333.CivBeyondSwordSave", 7 ∷ 8 ∷ 9 ∷ [])
        ∷ [];
  };
  faults = Faults.no_faults;
}

abbrev sent_world : World FakeStorage
sent_world = record { storage = sent_storage; journal = empty_journal }

abbrev download_request : DownloadRequest
download_request = record {
  game_id = codes "demo";
  local_player_id = bob;
  max_save_bytes = 1000;
  prior_evidence = none;
}

download-file_example :
    Effects.file
      (download_accepted_save fake libraries download_request sent_world).1.storage
      (codes "demo/manifest.json")
    ≡ Effects.file sent_storage (codes "demo/manifest.json")
download-file_example =
    download-file fake fake_laws libraries download_request (codes "demo/manifest.json") sent_world

abbrev candidates : List Text
candidates =
    codes "temporary/manifest-01234567-0123-0123-0123-0123456789ab.json"
    ∷ codes "temporary/old.upload.sav"
    ∷ []

cleanup-file_example :
    Effects.file
      (cleanup_temporary_orphans fake libraries (codes "demo") candidates world).1.storage
      (codes "demo/manifest.json")
    ≡ Effects.file storage (codes "demo/manifest.json")
unfolding starts_with temporary_prefix under
cleanup-file_example =
    cleanup-file fake fake_laws libraries (codes "demo") (codes "demo/manifest.json") candidates
      world refl

cleanup-Reports_example :
    Items.Reports
      (Items.IsRefused fake libraries (codes "demo") candidates world)
      candidates
      (cleanup_temporary_orphans fake libraries (codes "demo") candidates world).0
cleanup-Reports_example = cleanup-Reports fake libraries (codes "demo") candidates world

abbrev config : MatchConfig
config = record {
  game_id = codes "demo";
  display_name = codes "Demo";
  players = first_manifest.players;
  local_player_id = alice;
  launch_profile = none;
  mod_name = none;
  pbem_save_directory = codes "C:/saves";
  filename_glob = codes "*.CivBeyondSwordSave";
  turn_handling_mode = standard;
}

initialize-existing_example :
    Effects.file
      (initialize_match fake libraries config operation world).1.storage
      (codes "demo/manifest.json")
    ≡ Effects.file storage (codes "demo/manifest.json")
unfolding text_eq directory_at contains
initialize-existing_example =
    initialize-existing fake fake_laws libraries config operation (codes "demo/manifest.json") world
      refl

abbrev no_storage : FakeStorage
no_storage = record {
  capabilities = default_capabilities;
  snapshot = record { directories = []; files = [] };
  faults = Faults.no_faults;
}

abbrev no_world : World FakeStorage
no_world = record { storage = no_storage; journal = empty_journal }

initialize-IsInitial_example :
    IsInitial fake fake_laws libraries config operation
      (initialize_match fake libraries config operation no_world).0
      (Effects.file no_storage (manifest (codes "demo")))
      (Effects.file
        (initialize_match fake libraries config operation no_world).1.storage
        (manifest (codes "demo")))
initialize-IsInitial_example =
    initialize-IsInitial fake fake_laws libraries config operation no_world

commit_handoff-IsRecoverable_example :
    IsRecoverable fake libraries request
      (acquire_or_resume_upload_lock fake libraries
        (lock_request fake libraries request)
        world).1.journal
      (Effects.file storage (manifest (codes "demo")))
      (Effects.file
        (commit_handoff fake libraries request world).1.storage
        (manifest (codes "demo")))
unfolding text_eq request_valid validate_game_id validate_player_id validate_client_id
    validate_original_filename validate_utc_timestamp lookup lock_request
commit_handoff-IsRecoverable_example =
    commit_handoff-IsRecoverable fake fake_laws libraries request world loads-dumps refl (inl refl)

-- The lock of the operation, which has a temporary manifest.
abbrev document : LockDocument
document = record {
  operation_id = operation;
  client_id = codes "client";
  player_id = alice;
  created_at = codes "2026-01-02T03:04:05Z";
  expires_at = codes "2026-01-02T03:19:05Z";
}

abbrev locked_storage : FakeStorage
locked_storage = record {
  capabilities = default_capabilities;
  snapshot = record {
    directories = codes "demo/locks/upload.lock" ∷ storage.snapshot.directories;
    files =
        (codes "demo/locks/upload.lock/lock.json", Document.to_json_bytes libraries document)
        ∷ (codes "demo/temporary/manifest-01234567-0123-0123-0123-0123456789ab.json", 1 ∷ [])
        ∷ [];
  };
  faults = Faults.no_faults;
}

abbrev locked_world : World FakeStorage
locked_world = record { storage = locked_storage; journal = empty_journal }

abbrev inspection : LockInspection
inspection = record (bare readable) {
  document = some document;
  raw_bytes = some (Document.to_json_bytes libraries document);
}

inspected : (inspect_upload_lock fake libraries (codes "demo") locked_world).0 ≡ some inspection
unfolding inspect_upload_lock ◌>>=◌ ensure validate_game_id call after_list list_dir
    validate_remote_relative_path text_eq upload_lock_dir under starts_with fault_scope Faults.begin
    list_body file_at lookup directory_at contains Faults.finish after_read read_file
    upload_lock_json Faults.corrupt_read_payload observed inspection_valid document_observation
    Document.from_json_bytes parse_json_object_bytes read Document.to_json_bytes write
    Document.to_mapping is_strict has_key Document.from_mapping check_exact_keys get_string
    Document.document_valid validate_operation_id validate_client_id validate_player_id
    validate_utc_timestamp pure
inspected = refl

cleanup-protected_example :
    Effects.file
      (cleanup_temporary_orphans fake libraries (codes "demo") candidates locked_world).1.storage
      (codes "demo/temporary/manifest-01234567-0123-0123-0123-0123456789ab.json")
    ≡ Effects.file locked_storage
        (codes "demo/temporary/manifest-01234567-0123-0123-0123-0123456789ab.json")
unfolding text_eq protected_by_operation starts_with basename split
cleanup-protected_example =
    cleanup-protected fake fake_laws libraries (codes "demo")
      (codes "demo/temporary/manifest-01234567-0123-0123-0123-0123456789ab.json") candidates
      locked_world inspection document inspected refl refl (staged_manifest refl)
