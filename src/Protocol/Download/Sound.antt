-- ===== src/Protocol/Download/Sound.antt =====
-- protocol/download.py: a download returns, and only with verified bytes.
use civ4_turn_relay.Prelude.{length, ◌≡◌, ◌≢◌, ◌≤◌, ◌⊎◌, true, Option, none, some, Text, Bytes}
use civ4_turn_relay.Domain.Libraries.{Libraries}
use civ4_turn_relay.Domain.Manifest.{Manifest, AcceptedSave}
use civ4_turn_relay.Domain.Manifest.Codec.{from_json_bytes}
use civ4_turn_relay.Storage.Port.{Storage, ok}
use civ4_turn_relay.Protocol.Action.{World, Action}
use civ4_turn_relay.Protocol.Paths
use civ4_turn_relay.Protocol.Paths.{resolve}
use civ4_turn_relay.Protocol.ManifestAccess
use civ4_turn_relay.Protocol.ManifestAccess.{ManifestReadOutcome}
use civ4_turn_relay.Protocol.Download.{
  DownloadRequest, DownloadResult, verified, already_verified, without_artifact, artifact_valid,
  artifact_of, is_proven,
}

module _ {S : Type 0} (storage : Storage S) (lib : Libraries) (q : DownloadRequest) where
  -- The manifest that the storage replied with at `s` gives the turn to the local player, with the
  -- save `a`.
  pub record IsOwnTurn (s : S) (m : Manifest) (a : AcceptedSave) : Type 0 where
    pub raw : Bytes
    pub replied : (storage.read_file (Paths.manifest q.game_id) s).0 ≡ ok raw
    pub parsed : from_json_bytes lib raw ≡ some m
    pub same_game : m.game_id ≡ q.game_id
    pub mine : m.current_player_id ≡ q.local_player_id
    pub accepted : m.accepted_save ≡ some a
    pub positive : m.protocol_sequence ≢ 0
    pub fits : a.size_bytes ≤ q.max_save_bytes

  -- The bytes that the storage replied with are those the manifest accepted.
  pub record IsVerified (s : S) (m : Manifest) (a : AcceptedSave) (r : DownloadResult)
      : Type 0 where
    pub path : Text
    pub resolved : resolve q.game_id a.remote_path ≡ some path
    pub content : Bytes
    pub replied :
        (storage.read_file path (storage.read_file (Paths.manifest q.game_id) s).1).0 ≡ ok content
    pub size : length content ≡ a.size_bytes
    pub digest : lib.sha256_hexdigest content ≡ a.sha256
    pub carried : r.artifact ≡ some (artifact_of storage lib q m a content)
    pub constructed : artifact_valid lib (artifact_of storage lib q m a content) ≡ true

  -- What a result reports: verified bytes, evidence that still stands, or a refusal.
  abbrev pub IsReport : S → DownloadResult → Type 0
  IsReport s r =
      ((m : Manifest) × ((a : AcceptedSave) × (IsOwnTurn s m a)
          × (((r.outcome ≡ verified) × (IsVerified s m a r))
              ⊎ ((r ≡ without_artifact already_verified)
                  × (is_proven m a q.prior_evidence ≡ true)))))
      ⊎ ((r.outcome ≢ verified) × (r.outcome ≢ already_verified) × (r.artifact ≡ none))

  -- The result of a run that started at `s`; a raise is excluded.
  abbrev pub Reports : S → Option DownloadResult → Type 0
  Reports s o = (r : DownloadResult) × (o ≡ some r) × (IsReport s r)

  -- From a world whose storage came out of the read of the manifest.
  abbrev After : S → Action S DownloadResult → Type 0
  After s m =
      (w : World S)
      → w.storage ≡ (storage.read_file (Paths.manifest q.game_id) s).1
      → Reports s (m w).0

  -- What the read of the manifest replied, and what it parsed to.
  record IsRead (s : S) (m : Manifest) : Type 0 where
    raw : Bytes
    replied : (storage.read_file (Paths.manifest q.game_id) s).0 ≡ ok raw
    parsed : from_json_bytes lib raw ≡ some m
    same_game : m.game_id ≡ q.game_id
