-- ===== src/Protocol/Download/Quiet.antt =====
-- protocol/download.py: a download changes nothing.
use civ4_turn_relay.Domain.Paths.{validate_accepted_save_path}
use civ4_turn_relay.Prelude.{ltb, ◌==◌, text_eq, ◌≡◌, Option, none, some, Text, Bytes}
use civ4_turn_relay.Domain.Libraries.{Libraries}
use civ4_turn_relay.Domain.Manifest.{Manifest, AcceptedSave}
use civ4_turn_relay.Storage.Port.{Storage, Reply, ok, err, not_found, wrong_kind}
use civ4_turn_relay.Storage.Laws.{StorageLaws}
use civ4_turn_relay.Protocol.Action.{World}
use civ4_turn_relay.Protocol.Action.Keeps.{
  Keeps, of_storage, Keeps-pure, Keeps-bind, Keeps-call, Keeps-lift, Keeps-if, Keeps-read_storage,
}
use civ4_turn_relay.Protocol.ManifestAccess
use civ4_turn_relay.Protocol.ManifestAccess.{ManifestReadOutcome}
use civ4_turn_relay.Protocol.Lock.Observes.{read_manifest-Keeps}
use civ4_turn_relay.Protocol.Download.{
  DownloadRequest, is_proven, after_read, at_path, fetch, accepted_turn, with_manifest, by_outcome,
  download_accepted_save,
}

module _ {S X : Type 0} (storage : Storage S) (lib : Libraries) (q : DownloadRequest) (see : S → X)
    (on_read : (p : Text) (s : S) → see (storage.read_file p s).1 ≡ see s)
    (on_list : (p : Text) (s : S) → see (storage.list_dir p s).1 ≡ see s) where
  after_read-Keeps :
      (m : Manifest) (a : AcceptedSave) (r : Reply Bytes)
      → Keeps (of_storage see) (after_read storage lib q m a r)
  unfolding after_read
  after_read-Keeps m a (ok content) = Keeps-lift _
  after_read-Keeps m a (err not_found) = Keeps-pure _
  after_read-Keeps m a (err wrong_kind) = Keeps-pure _
  after_read-Keeps m a (err _) = Keeps-pure _

  at_path-Keeps :
      (m : Manifest) (a : AcceptedSave) (p : Option Text)
      → Keeps (of_storage see) (at_path storage lib q m a p)
  unfolding at_path
  at_path-Keeps m a none = Keeps-pure _
  at_path-Keeps m a (some p) = Keeps-call see _ _ (on_read p) (after_read-Keeps m a)

  fetch-Keeps : (m : Manifest) (a : AcceptedSave) → Keeps (of_storage see) (fetch storage lib q m a)
  unfolding fetch
  fetch-Keeps m a = Keeps-if (ltb q.max_save_bytes a.size_bytes) _ _ (Keeps-pure _) (
      Keeps-if (is_proven m a q.prior_evidence) _ _ (Keeps-pure _) (
        Keeps-if (validate_accepted_save_path a.remote_path) _ _ (at_path-Keeps m a _)
          (Keeps-pure _)))

  accepted_turn-Keeps :
      (m : Manifest) (a : Option AcceptedSave)
      → Keeps (of_storage see) (accepted_turn storage lib q m a)
  unfolding accepted_turn
  accepted_turn-Keeps m none = Keeps-pure _
  accepted_turn-Keeps m (some a) =
      Keeps-if (m.protocol_sequence == 0) _ _ (Keeps-pure _) (fetch-Keeps m a)

  with_manifest-Keeps :
      (m : Option Manifest) → Keeps (of_storage see) (with_manifest storage lib q m)
  unfolding with_manifest
  with_manifest-Keeps none = Keeps-pure _
  with_manifest-Keeps (some m) =
      Keeps-if (text_eq m.current_player_id q.local_player_id) _ _ (accepted_turn-Keeps m _)
        (Keeps-pure _)

  by_outcome-Keeps :
      (m : Option Manifest) (o : ManifestReadOutcome)
      → Keeps (of_storage see) (by_outcome storage lib q m o)
  unfolding by_outcome
  by_outcome-Keeps m ManifestAccess.missing = Keeps-pure _
  by_outcome-Keeps m ManifestAccess.invalid = Keeps-pure _
  by_outcome-Keeps m ManifestAccess.game_id_mismatch = Keeps-pure _
  by_outcome-Keeps m ManifestAccess.transport_failure = Keeps-pure _
  by_outcome-Keeps m ManifestAccess.ok = with_manifest-Keeps m

  pub download-Keeps : Keeps (of_storage see) (download_accepted_save storage lib q)
  unfolding download_accepted_save
  download-Keeps = Keeps-bind _ _ (Keeps-read_storage _) (λ caps.
      Keeps-if _ _ _
        (Keeps-bind _ _ (read_manifest-Keeps storage lib see on_read on_list q.game_id)
          (λ read. by_outcome-Keeps _ _))
        (Keeps-pure _))

-- Over any adapter that keeps the storage laws, `download_accepted_save` leaves the content of every
-- file as it was, whether it returns or raises.
pub download-file :
    {S : Type 0} (storage : Storage S) (laws : StorageLaws storage) (lib : Libraries)
    (q : DownloadRequest) (path : Text) (w : World S)
    → laws.file (download_accepted_save storage lib q w).1.storage path ≡ laws.file w.storage path
download-file storage laws lib q path w =
    (download-Keeps storage lib q (λ s. laws.file s path) (λ p. laws.file-read p path)
        (λ p. laws.file-list p path)).same
      w
