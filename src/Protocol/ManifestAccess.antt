-- ===== src/Protocol/ManifestAccess.antt =====
-- protocol/manifest_access.py: the reader of the authoritative manifest.
use civ4_turn_relay.Prelude.{
  if◌then◌else◌, Bool, false, not, Option, none, some, Text, Bytes, text_eq,
}
use civ4_turn_relay.Domain.Libraries.{Libraries}
use civ4_turn_relay.Domain.Ids.{validate_game_id}
use civ4_turn_relay.Domain.Manifest.{Manifest}
use civ4_turn_relay.Domain.Manifest.Codec.{from_json_bytes}
use civ4_turn_relay.Storage.Port.{Storage, Reply, err, not_found, wrong_kind}
use civ4_turn_relay.Protocol.Action.{Action, pure, call, ensure, ◌>>◌}
use civ4_turn_relay.Protocol.Paths

pub data ManifestReadOutcome : Type 0 where
  ok missing invalid game_id_mismatch transport_failure : ManifestReadOutcome

pub record ManifestReadResult : Type 0 where
  pub outcome : ManifestReadOutcome
  pub manifest : Option Manifest
  pub raw_bytes : Option Bytes

-- `ManifestReadResult(outcome)`
abbrev pub without_manifest : ManifestReadOutcome → Option Bytes → ManifestReadResult
without_manifest outcome raw = record { outcome = outcome; manifest = none; raw_bytes = raw }

-- What the bytes of the file say.
unfoldable pub parse_manifest : Libraries → Text → Bytes → ManifestReadResult
parse_manifest lib game_id raw = elim (from_json_bytes lib raw) [
  | none ↦ without_manifest invalid (some raw)
  | some m ↦
      if text_eq m.game_id game_id
      then record { outcome = ok; manifest = some m; raw_bytes = some raw }
      else without_manifest game_id_mismatch (some raw)
]

unfoldable pub read_result : Libraries → Text → Reply Bytes → ManifestReadResult
unfolding parse_manifest
read_result lib game_id (Reply.ok raw) = parse_manifest lib game_id raw
read_result lib game_id (err not_found) = without_manifest missing none
read_result lib game_id (err wrong_kind) = without_manifest invalid none
read_result lib game_id (err _) = without_manifest transport_failure none

-- The parsing raises an exception that the reader does not catch.
unfoldable pub escapes : Libraries → Reply Bytes → Bool
escapes lib (Reply.ok raw) = lib.json_escapes raw
escapes lib (err e) = false

unfoldable pub read_authoritative_manifest :
    {S : Type 0} → Storage S → Libraries → Text → Action S ManifestReadResult
read_authoritative_manifest storage lib game_id = do
  ensure (validate_game_id game_id)
  call (storage.read_file (Paths.manifest game_id))
      (λ r. ensure (not (escapes lib r)) >> pure (read_result lib game_id r))
