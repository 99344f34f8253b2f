-- ===== src/Protocol/Lock/Inspect.antt =====
-- protocol/lock.py: the observation of the remote lock, which changes nothing.
use civ4_turn_relay.Prelude.{
  if◌then◌else◌, is_some, Bool, true, false, not, ◌&&◌, Option, none, some, List, [], ◌∷◌, Text,
  Bytes, text_eq,
}
use civ4_turn_relay.Domain.Libraries.{Libraries}
use civ4_turn_relay.Domain.Paths.{all_of}
use civ4_turn_relay.Domain.Ids.{validate_game_id}
use civ4_turn_relay.Storage.Port.{
  Storage, StorageEntry, StorageEntryKind, Reply, ok, err, not_found, wrong_kind,
}
use civ4_turn_relay.Storage.Snapshot.{text_le}
use civ4_turn_relay.Protocol.Action.{Action, pure, call, ensure, ◌>>◌}
use civ4_turn_relay.Protocol.Paths.{upload_lock_dir, upload_lock_json}
use civ4_turn_relay.Protocol.Lock.Document.{LockDocument, from_json_bytes}

pub data LockInspectionKind : Type 0 where
  absent readable missing_lock_json malformed wrong_kind_lock transport_failure : LockInspectionKind

pub data LockWrongKindTarget : Type 0 where
  upload_lock lock_json : LockWrongKindTarget

pub record LockInspection : Type 0 where
  pub kind : LockInspectionKind
  pub document : Option LockDocument
  pub raw_bytes : Option Bytes
  pub wrong_kind_target : Option LockWrongKindTarget
  pub wrong_kind_dir_listing : Option (List StorageEntry)

-- The pairs of a name and a kind, `directory` before `file`, as tuples are ordered.
entry_le : StorageEntry → StorageEntry → Bool
entry_le a b =
    if text_eq a.name b.name
    then elim a.kind [
      | StorageEntryKind.directory ↦ true
      | StorageEntryKind.file ↦ elim b.kind [
        | StorageEntryKind.file ↦ true
        | StorageEntryKind.directory ↦ false
      ]
    ]
    else text_le a.name b.name

insert_pair : StorageEntry → List StorageEntry → List StorageEntry
insert_pair e [] = e ∷ []
insert_pair e (x ∷ xs) =
    let rest = insert_pair e xs in if entry_le e x then e ∷ x ∷ xs else x ∷ rest

-- `_directory_listing_evidence`
unfoldable pub directory_listing_evidence : List StorageEntry → List StorageEntry
unfolding insert_pair entry_le
directory_listing_evidence [] = []
directory_listing_evidence (e ∷ es) = insert_pair e (directory_listing_evidence es)

same_kind : StorageEntryKind → StorageEntryKind → Bool
same_kind StorageEntryKind.file StorageEntryKind.file = true
same_kind StorageEntryKind.directory StorageEntryKind.directory = true
same_kind _ _ = false

unfoldable pub same_listing : List StorageEntry → List StorageEntry → Bool
unfolding same_kind
same_listing [] [] = true
same_listing (a ∷ as') (b ∷ bs) =
    text_eq a.name b.name && same_kind a.kind b.kind && same_listing as' bs
same_listing _ _ = false

-- `_validate_wrong_kind_dir_listing` returns.
unfoldable pub listing_valid : List StorageEntry → Bool
unfolding same_listing directory_listing_evidence
listing_valid listing =
    all_of (λ (e : StorageEntry). not (text_eq e.name [])) listing
    && same_listing listing (directory_listing_evidence listing)

abbrev maybe_listing_valid : Option (List StorageEntry) → Bool
maybe_listing_valid none = true
maybe_listing_valid (some listing) = listing_valid listing

-- The payload that each kind must and must not carry.
payload_valid : LockInspectionKind → LockInspection → Bool
payload_valid readable i =
    is_some i.document
    && is_some i.raw_bytes
    && not (is_some i.wrong_kind_target)
    && not (is_some i.wrong_kind_dir_listing)
payload_valid malformed i =
    not (is_some i.document)
    && not (is_some i.wrong_kind_target)
    && not (is_some i.wrong_kind_dir_listing)
payload_valid wrong_kind_lock i = not (is_some i.document) && elim i.wrong_kind_target [
  | none ↦ false
  | some upload_lock ↦ is_some i.raw_bytes && not (is_some i.wrong_kind_dir_listing)
  | some lock_json ↦ not (is_some i.raw_bytes) && is_some i.wrong_kind_dir_listing
]
payload_valid _ i =
    not (is_some i.document)
    && not (is_some i.raw_bytes)
    && not (is_some i.wrong_kind_target)
    && not (is_some i.wrong_kind_dir_listing)

-- `LockInspection.__post_init__` returns.
unfoldable pub inspection_valid : LockInspection → Bool
unfolding payload_valid
inspection_valid i = maybe_listing_valid i.wrong_kind_dir_listing && payload_valid i.kind i

-- `LockInspection(kind)`
abbrev pub bare : LockInspectionKind → LockInspection
bare kind = record {
  kind = kind;
  document = none;
  raw_bytes = none;
  wrong_kind_target = none;
  wrong_kind_dir_listing = none;
}

-- What the reply of each read is taken for.
unfoldable pub file_observation : Reply Bytes → LockInspection
file_observation (ok raw) = record (bare wrong_kind_lock) {
  raw_bytes = some raw;
  wrong_kind_target = some upload_lock;
}
file_observation (err not_found) = bare absent
file_observation (err _) = bare transport_failure

unfoldable pub directory_observation : Reply (List StorageEntry) → LockInspection
directory_observation (ok children) = record (bare wrong_kind_lock) {
  wrong_kind_target = some lock_json;
  wrong_kind_dir_listing = some (directory_listing_evidence children);
}
directory_observation (err not_found) = bare missing_lock_json
directory_observation (err _) = bare transport_failure

unfoldable pub document_observation : Libraries → Bytes → LockInspection
document_observation lib raw = elim (from_json_bytes lib raw) [
  | none ↦ record (bare malformed) { raw_bytes = some raw }
  | some document ↦ record (bare readable) { document = some document; raw_bytes = some raw }
]

module _ {S : Type 0} (storage : Storage S) (lib : Libraries) (game_id : Text) where
  -- The constructor raises on what is not valid.
  unfoldable pub observed : LockInspection → Action S LockInspection
  observed i = ensure (inspection_valid i) >> pure i

  -- An exception of the parsing that is not caught is a raise.
  unfoldable pub after_read : Reply Bytes → Action S LockInspection
  after_read (ok raw) =
      ensure (not (lib.json_escapes raw)) >> observed (document_observation lib raw)
  after_read (err not_found) = observed (bare missing_lock_json)
  after_read (err wrong_kind) =
      call (storage.list_dir (upload_lock_json game_id)) (λ r. observed (directory_observation r))
  after_read (err _) = observed (bare transport_failure)

  unfoldable pub after_list : Reply (List StorageEntry) → Action S LockInspection
  after_list (ok _) = call (storage.read_file (upload_lock_json game_id)) after_read
  after_list (err not_found) = observed (bare absent)
  after_list (err wrong_kind) =
      call (storage.read_file (upload_lock_dir game_id)) (λ r. observed (file_observation r))
  after_list (err _) = observed (bare transport_failure)

  unfoldable pub inspect_upload_lock : Action S LockInspection
  inspect_upload_lock = do
    ensure (validate_game_id game_id)
    call (storage.list_dir (upload_lock_dir game_id)) after_list
