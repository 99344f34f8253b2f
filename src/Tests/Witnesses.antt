-- ===== src/Tests/Witnesses.antt =====
-- The theorems at a concrete match: two players, the first one hands over.
use civ4_turn_relay.Storage.Snapshot.{write_body, directory_at, file_at, parent_path, mkdir_body}
use civ4_turn_relay.Storage.Faults.{finish, begin}
use civ4_turn_relay.Prelude.Dict.{lookup}
use civ4_turn_relay.Storage.Fake.{
  fault_scope, fake, mkdir, write_file, publish_no_replace, atomic_replace,
}
use civ4_turn_relay.Prelude.{
  starts_with, ◌+◌, ◌%◌, ◌≡◌, ◌≢◌, ◌↔◌, refl, ◌⊎◌, true, false, some, [], ◌∷◌, codes, length, arith,
  contains, Text, text_eq, text_eq_iff,
}
use civ4_turn_relay.Domain.Paths.{validate_remote_relative_path, all_of}
use civ4_turn_relay.Domain.Manifest.{
  coupling_valid, hashes_valid, player_ids, players_valid, manifest_post_init,
  protocol_metadata_valid, player_valid, all_distinct, manifest_valid,
}
use civ4_turn_relay.Domain.Ids.{validate_game_id, validate_sha256_hex, validate_player_id}
use civ4_turn_relay.Domain.Manifest.Codec.{to_json_bytes, from_json_bytes}
use civ4_turn_relay.Domain.Manifest.RoundTrip.{from_json_bytes-to_json_bytes}
use civ4_turn_relay.Storage.Fake.Effects
use civ4_turn_relay.Storage.Fake.Laws.{fake_laws}
use civ4_turn_relay.Protocol.Paths.{under, manifest, upload_lock_dir, upload_lock_json}
use civ4_turn_relay.Protocol.Players.{get_elem?}
use civ4_turn_relay.Protocol.Players.Rotation.{relay, relay-place}
use civ4_turn_relay.Protocol.Classify.{PriorAttemptEvidence, stale_replay, classify_candidate_hash}
use civ4_turn_relay.Protocol.Classify.Table.{Means, classify_candidate_hash-Means}
use civ4_turn_relay.Protocol.Lock.Acquire.{acquire_or_resume_upload_lock}
use civ4_turn_relay.Protocol.Lock.Release.{release_owned_upload_lock}
use civ4_turn_relay.Protocol.Lock.Exclusive.{IsAcquisition, acquire-IsAcquisition}
use civ4_turn_relay.Protocol.Lock.Inspect.{bare, malformed}
use civ4_turn_relay.Protocol.Lock.Repair.{LockRepairPreview, repair_abandoned_upload_lock}
use civ4_turn_relay.Protocol.Lock.RepairKeeps.{repair-file}
use civ4_turn_relay.Protocol.Lock.Effect.{acquire-file, release-file}
use civ4_turn_relay.Protocol.Handoff.Request.{owner_of}
use civ4_turn_relay.Protocol.Handoff.Commit.{commit_handoff, lock_request}
use civ4_turn_relay.Protocol.Handoff.Effect.{EffectOf, FinalClaims}
use civ4_turn_relay.Protocol.Handoff.Effect.Commit.{commit_handoff-Effect}
use civ4_turn_relay.Protocol.Handoff.Effect.Readable.{IsReadable, commit_handoff-IsReadable}
use civ4_turn_relay.Tests.Codec.{loads-dumps}
use civ4_turn_relay.Tests.Inputs.{
  repeat, libraries, alice, bob, first_manifest, request, storage, world,
}

commit_handoff-Effect_example :
    EffectOf libraries request
      (FinalClaims libraries request)
      (commit_handoff fake libraries request world).0
      (Effects.file storage (manifest (codes "demo")))
      (Effects.file
        (commit_handoff fake libraries request world).1.storage
        (manifest (codes "demo")))
commit_handoff-Effect_example = commit_handoff-Effect fake fake_laws libraries request world

acquire-IsAcquisition_example :
    IsAcquisition fake fake_laws libraries
      (lock_request fake libraries request)
      (acquire_or_resume_upload_lock fake libraries (lock_request fake libraries request) world).0
      storage
      (acquire_or_resume_upload_lock fake libraries
        (lock_request fake libraries request)
        world).1.storage
acquire-IsAcquisition_example =
    acquire-IsAcquisition fake fake_laws libraries (lock_request fake libraries request) world

text-ne : (a b : Text) → text_eq a b ≡ false → a ≢ b
text-ne a b h = ground (arith, text_eq_iff a b)

first_manifest-valid : manifest_valid libraries first_manifest ≡ true
unfolding manifest_valid all_of player_valid validate_player_id text_eq protocol_metadata_valid
    manifest_post_init validate_game_id players_valid all_distinct player_ids contains hashes_valid
    coupling_valid
first_manifest-valid = refl

from_json_bytes-to_json_bytes_example :
    from_json_bytes libraries (to_json_bytes libraries first_manifest) ≡ some first_manifest
from_json_bytes-to_json_bytes_example =
    from_json_bytes-to_json_bytes libraries first_manifest loads-dumps first_manifest-valid

relay-place_example :
    relay (alice ∷ bob ∷ []) 3 bob
    ≡ get_elem? (alice ∷ bob ∷ []) ((1 + 3) % length (alice ∷ bob ∷ []))
unfolding all_distinct contains text_eq get_elem?
relay-place_example = relay-place (alice ∷ bob ∷ []) 3 1 bob refl (omega arith) refl

-- Two accepted saves; the older one comes again from a player who never tried it.
abbrev older : Text
older = repeat 64 48

abbrev newer : Text
newer = repeat 64 49

abbrev no_evidence : PriorAttemptEvidence
no_evidence = record { handoff_attempted_for_hash = false; historically_accepted_for_hash = false }

classify_candidate_hash-Means_example :
    (classify_candidate_hash older (older ∷ newer ∷ []) alice bob (some alice) no_evidence
      ≡ some stale_replay)
    ↔ Means older (older ∷ newer ∷ []) alice bob (some alice) no_evidence stale_replay
unfolding validate_sha256_hex validate_player_id all_of
classify_candidate_hash-Means_example =
    classify_candidate_hash-Means older (older ∷ newer ∷ []) alice bob (some alice) no_evidence refl
      refl refl refl refl stale_replay

-- The lock of the match does not stand on its manifest.
acquire-file_example :
    Effects.file
      (acquire_or_resume_upload_lock fake libraries
        (lock_request fake libraries request)
        world).1.storage
      (manifest (codes "demo"))
    ≡ Effects.file storage (manifest (codes "demo"))
unfolding manifest upload_lock_json under lock_request text_eq
acquire-file_example =
    acquire-file fake fake_laws libraries (manifest (codes "demo"))
      (lock_request fake libraries request) world (text-ne _ _ refl)

release-file_example :
    Effects.file
      (release_owned_upload_lock fake libraries (codes "demo") (owner_of request) world).1.storage
      (manifest (codes "demo"))
    ≡ Effects.file storage (manifest (codes "demo"))
unfolding manifest upload_lock_json under text_eq
release-file_example =
    release-file fake fake_laws libraries (manifest (codes "demo")) (codes "demo")
      (owner_of request) world (text-ne _ _ refl)

mkdir-exclusive_example :
    (Effects.directory storage (codes "demo/x") ≡ false)
    × (Effects.directory (mkdir (codes "demo/x") storage).1 (codes "demo/x") ≡ true)
unfolding mkdir validate_remote_relative_path text_eq starts_with fault_scope begin mkdir_body
    parent_path file_at lookup directory_at contains finish
mkdir-exclusive_example = Effects.mkdir-exclusive storage (codes "demo/x") refl

publish-keeps_example :
    Effects.file
      (publish_no_replace (codes "demo/x") (codes "demo/manifest.json") storage).1
      (codes "demo/manifest.json")
    ≡ some (to_json_bytes libraries first_manifest)
unfolding to_json_bytes file_at lookup text_eq
publish-keeps_example =
    Effects.publish-keeps storage (codes "demo/x") (codes "demo/manifest.json")
      (to_json_bytes libraries first_manifest) refl

file-replace_either_example :
    (Effects.file
        (atomic_replace (codes "demo/x") (codes "demo/manifest.json") storage).1
        (codes "demo/manifest.json")
      ≡ Effects.file storage (codes "demo/manifest.json"))
    ⊎ (Effects.file
          (atomic_replace (codes "demo/x") (codes "demo/manifest.json") storage).1
          (codes "demo/manifest.json")
        ≡ Effects.file storage (codes "demo/x"))
file-replace_either_example =
    Effects.file-replace_either storage (codes "demo/x") (codes "demo/manifest.json")

file-write_example :
    Effects.file (write_file (codes "demo/x") (1 ∷ 2 ∷ []) false storage).1 (codes "demo/x")
    ≡ some (1 ∷ 2 ∷ [])
unfolding write_file validate_remote_relative_path text_eq starts_with fault_scope begin write_body
    parent_path file_at lookup directory_at contains finish
file-write_example = Effects.file-write storage (codes "demo/x") (1 ∷ 2 ∷ []) false refl

commit_handoff-IsReadable_example :
    IsReadable libraries
      (commit_handoff fake libraries request world).0
      (Effects.file storage (manifest (codes "demo")))
      (Effects.file
        (commit_handoff fake libraries request world).1.storage
        (manifest (codes "demo")))
commit_handoff-IsReadable_example =
    commit_handoff-IsReadable fake fake_laws libraries request world loads-dumps

abbrev preview : LockRepairPreview
preview = record { game_id = codes "demo"; seen = bare malformed }

repair-file_example :
    Effects.file
      (repair_abandoned_upload_lock fake libraries preview true world).1.storage
      (manifest (codes "demo"))
    ≡ Effects.file storage (manifest (codes "demo"))
unfolding manifest upload_lock_json upload_lock_dir under text_eq
repair-file_example =
    repair-file fake fake_laws libraries preview true (manifest (codes "demo")) world
      (text-ne _ _ refl) (text-ne _ _ refl)
