-- ===== src/Protocol/Temporary/Cleanup.antt =====
-- protocol/cleanup.py: the removal of temporary objects that the caller names.
use civ4_turn_relay.Prelude.{if◌then◌else◌, Option, none, List, [], ◌∷◌, ◌++◌, Text}
use civ4_turn_relay.Domain.Libraries.{Libraries}
use civ4_turn_relay.Domain.Ids.{validate_game_id}
use civ4_turn_relay.Storage.Port.{Storage, Reply, ok, err, not_found, wrong_kind}
use civ4_turn_relay.Protocol.Action.{Action, pure, lift, call, ensure, ◌>>=◌, ◌>>◌}
use civ4_turn_relay.Protocol.Lock.Document.{LockDocument}
use civ4_turn_relay.Protocol.Lock.Inspect
use civ4_turn_relay.Protocol.Lock.Inspect.{LockInspection, LockInspectionKind, inspect_upload_lock}
use civ4_turn_relay.Protocol.Temporary.Candidates.{
  TemporaryCandidateResult, TemporaryCleanupResult, completed, lock_unsafe, path_violation_found,
  transport_failure, removed, missing, protected, wrong_kind_left, transport_failed, item, skip_all,
  Resolved, sort_candidates, basename, is_protected, operation_of,
}

abbrev pub Removing : Type 0 → Type 0
Removing S = List TemporaryCandidateResult → Action S TemporaryCleanupResult

module _ {S : Type 0} (storage : Storage S) (lib : Libraries) (game_id : Text) where
  -- What follows the removal of one object: `next` is the loop on the rest.
  unfoldable pub after_remove : Text → Text → Resolved → Removing S → Reply (Unit {0}) → Removing S
  after_remove candidate path rest next (ok _) items =
      next (items ++ item candidate path removed ∷ [])
  after_remove candidate path rest next (err not_found) items =
      next (items ++ item candidate path missing ∷ [])
  after_remove candidate path rest next (err wrong_kind) items =
      next (items ++ item candidate path wrong_kind_left ∷ [])
  after_remove candidate path rest next (err _) items = pure (record {
    outcome = transport_failure;
    items = items ++ item candidate path transport_failed ∷ skip_all rest;
  })

  -- The second loop. Each round adds one item, so what is behind the failed one is the rest.
  unfoldable pub remove_each : Option Text → Resolved → Removing S
  remove_each operation [] = λ items. pure (record { outcome = completed; items = items })
  remove_each operation ((candidate, path) ∷ rest) =
      let next = remove_each operation rest in
      λ items.
        if is_protected operation (basename path)
        then next (items ++ item candidate path protected ∷ [])
        else call (storage.remove_file path) (λ r. after_remove candidate path rest next r items)

  unfoldable pub by_inspection :
      Resolved → Option LockDocument → LockInspectionKind → Action S TemporaryCleanupResult
  by_inspection resolved document Inspect.readable = remove_each (operation_of document) resolved []
  by_inspection resolved document Inspect.absent = remove_each none resolved []
  by_inspection resolved document _ =
      pure (record { outcome = lock_unsafe; items = skip_all resolved })

  unfoldable pub clean_sorted :
      List TemporaryCandidateResult → Resolved → Action S TemporaryCleanupResult
  clean_sorted [] resolved =
      inspect_upload_lock storage lib game_id >>= λ i. by_inspection resolved i.document i.kind
  clean_sorted (violation ∷ violations) resolved = pure (record {
    outcome = path_violation_found;
    items = violation ∷ (violations ++ skip_all resolved);
  })

  unfoldable pub cleanup_temporary_orphans : List Text → Action S TemporaryCleanupResult
  cleanup_temporary_orphans candidates = do
    ensure (validate_game_id game_id)
    sorted ← lift (sort_candidates game_id candidates)
    clean_sorted sorted.violations sorted.resolved
