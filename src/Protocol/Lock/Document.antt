-- ===== src/Protocol/Lock/Document.antt =====
-- protocol/lock.py: `lock.json`.
use civ4_turn_relay.Prelude.{
  ℕ, ◌*◌, if◌then◌else◌, Bool, false, ◌&&◌, Option, some, List, [], ◌∷◌, Text, Bytes, codes,
  text_eq,
}
use civ4_turn_relay.Prelude.Maybe.{◌>>=◌, ◌>>◌, require}
use civ4_turn_relay.Domain.Json.{string, object, Fields, end, field}
use civ4_turn_relay.Domain.Libraries.{Libraries}
use civ4_turn_relay.Domain.Serialization.{parse_json_object_bytes, check_exact_keys, get_string}
use civ4_turn_relay.Domain.Ids.{
  validate_operation_id, validate_client_id, validate_player_id, validate_utc_timestamp,
  add_utc_seconds,
}

abbrev pub lock_ttl_seconds : ℕ
lock_ttl_seconds = 15 * 60

pub record LockDocument : Type 0 where
  pub operation_id : Text
  pub client_id : Text
  pub player_id : Text
  pub created_at : Text
  pub expires_at : Text

-- `LockDocument.__post_init__`
unfoldable pub document_valid : Libraries → LockDocument → Bool
document_valid lib d =
    validate_operation_id d.operation_id
    && validate_client_id d.client_id
    && validate_player_id d.player_id
    && validate_utc_timestamp lib d.created_at
    && validate_utc_timestamp lib d.expires_at

unfoldable pub to_mapping : LockDocument → Fields
to_mapping d = field (codes "client_id") (string d.client_id) (
    field (codes "created_at") (string d.created_at) (
      field (codes "expires_at") (string d.expires_at) (
        field (codes "operation_id") (string d.operation_id)
          (field (codes "player_id") (string d.player_id) end))))

unfoldable pub to_json_bytes : Libraries → LockDocument → Bytes
to_json_bytes lib d = lib.json_dumps (object (to_mapping d))

abbrev pub lock_keys : List Text
lock_keys =
    codes "client_id"
    ∷ codes "created_at"
    ∷ codes "expires_at"
    ∷ codes "operation_id"
    ∷ codes "player_id"
    ∷ []

unfoldable pub from_mapping : Libraries → Fields → Option LockDocument
from_mapping lib mapping = do
  require (check_exact_keys mapping lock_keys)
  operation_id ← get_string mapping (codes "operation_id")
  client_id ← get_string mapping (codes "client_id")
  player_id ← get_string mapping (codes "player_id")
  created_at ← get_string mapping (codes "created_at")
  expires_at ← get_string mapping (codes "expires_at")
  let document : LockDocument = record {
    operation_id = operation_id;
    client_id = client_id;
    player_id = player_id;
    created_at = created_at;
    expires_at = expires_at;
  }
  require (document_valid lib document)
  some document

unfoldable pub from_json_bytes : Libraries → Bytes → Option LockDocument
from_json_bytes lib content = do
  mapping ← parse_json_object_bytes lib content
  from_mapping lib mapping

-- The owner that a caller names.
pub record Owner : Type 0 where
  pub operation_id : Text
  pub client_id : Text
  pub player_id : Text

-- `matches_owner` raises on an argument that is not valid, unless an earlier comparison failed.
unfoldable pub matches_owner : LockDocument → Owner → Option Bool
matches_owner d o = do
  require (validate_operation_id o.operation_id)
  if text_eq d.operation_id o.operation_id
      then (do
        require (validate_client_id o.client_id)
        if text_eq d.client_id o.client_id
            then (do
              require (validate_player_id o.player_id)
              some (text_eq d.player_id o.player_id))
            else some false)
      else some false

unfoldable pub build_lock_document : Libraries → Owner → Text → Option LockDocument
build_lock_document lib o now_utc = do
  require (validate_utc_timestamp lib now_utc)
  expires_at ← add_utc_seconds lib now_utc lock_ttl_seconds
  let document : LockDocument = record {
    operation_id = o.operation_id;
    client_id = o.client_id;
    player_id = o.player_id;
    created_at = now_utc;
    expires_at = expires_at;
  }
  require (document_valid lib document)
  some document
