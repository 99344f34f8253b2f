-- ===== src/Domain/Manifest/Codec.antt =====
-- domain/manifest.py: the mappings and the JSON form of a manifest.
use civ4_turn_relay.Prelude.{Option, none, some, List, [], ◌∷◌, Text, Bytes, codes}
use civ4_turn_relay.Prelude.Maybe.{◌>>=◌, ◌>>◌, require}
use civ4_turn_relay.Domain.Json.{
  Value, null, integer, string, array, object, Fields, end, field, from_list,
}
use civ4_turn_relay.Domain.Libraries.{Libraries}
use civ4_turn_relay.Domain.Serialization.{
  parse_json_object_bytes, check_exact_keys, get_string, get_optional_string, get_integer,
  get_array, get_object, get_optional_object,
}
use civ4_turn_relay.Domain.Manifest.{
  Player, AcceptedSave, ProtocolMetadata, Manifest, player_valid, accepted_save_valid,
  protocol_metadata_valid, manifest_post_init,
}

abbrev pub optional_string : Option Text → Value
optional_string none = null
optional_string (some s) = string s

-- `Player.to_mapping`, as the object that it becomes.
unfoldable pub player_to_mapping : Player → Fields
player_to_mapping p =
    field (codes "display_name") (string p.display_name) (field (codes "id") (string p.id) end)

unfoldable pub accepted_save_to_mapping : AcceptedSave → Fields
accepted_save_to_mapping a = field (codes "accepted_at") (string a.accepted_at) (
    field (codes "original_filename") (string a.original_filename) (
      field (codes "remote_path") (string a.remote_path) (
        field (codes "sha256") (string a.sha256)
          (field (codes "size_bytes") (integer a.size_bytes) end))))

unfoldable pub protocol_to_mapping : ProtocolMetadata → Fields
protocol_to_mapping p =
    field (codes "last_operation_id") (optional_string p.last_operation_id)
      (field (codes "min_client_protocol") (integer p.min_client_protocol) end)

abbrev pub optional_save : Option AcceptedSave → Value
optional_save none = null
optional_save (some a) = object (accepted_save_to_mapping a)

unfoldable pub player_values : List Player → List Value
player_values [] = []
player_values (p ∷ ps) = object (player_to_mapping p) ∷ player_values ps

unfoldable pub hash_values : List Text → List Value
hash_values [] = []
hash_values (h ∷ hs) = string h ∷ hash_values hs

-- `Manifest.to_mapping`
unfoldable pub to_mapping : Manifest → Fields
to_mapping m = field (codes "accepted_save") (optional_save m.accepted_save) (
    field (codes "accepted_save_hashes") (array (from_list (hash_values m.accepted_save_hashes))) (
      field (codes "current_player_id") (string m.current_player_id) (
        field (codes "display_name") (string m.display_name) (
          field (codes "game_id") (string m.game_id) (
            field (codes "last_sender_id") (optional_string m.last_sender_id) (
              field (codes "players") (array (from_list (player_values m.players))) (
                field (codes "previous_manifest_ref") (optional_string m.previous_manifest_ref) (
                  field (codes "protocol") (object (protocol_to_mapping m.protocol)) (
                    field (codes "protocol_sequence") (integer m.protocol_sequence)
                      (field (codes "schema_version") (integer m.schema_version) end))))))))))

-- `Player.from_mapping`; no value where it raises, and so below.
unfoldable pub player_from_mapping : Fields → Option Player
player_from_mapping mapping = do
  require (check_exact_keys mapping (codes "display_name" ∷ codes "id" ∷ []))
  player_id ← get_string mapping (codes "id")
  display_name ← get_string mapping (codes "display_name")
  let player : Player = record { id = player_id; display_name = display_name }
  require (player_valid player)
  some player

abbrev pub accepted_save_keys : List Text
accepted_save_keys =
    codes "accepted_at"
    ∷ codes "original_filename"
    ∷ codes "remote_path"
    ∷ codes "sha256"
    ∷ codes "size_bytes"
    ∷ []

unfoldable pub accepted_save_from_mapping : Libraries → Fields → Option AcceptedSave
accepted_save_from_mapping lib mapping = do
  require (check_exact_keys mapping accepted_save_keys)
  sha256 ← get_string mapping (codes "sha256")
  size_bytes ← get_integer mapping (codes "size_bytes")
  remote_path ← get_string mapping (codes "remote_path")
  original_filename ← get_string mapping (codes "original_filename")
  accepted_at ← get_string mapping (codes "accepted_at")
  let save : AcceptedSave = record {
    sha256 = sha256;
    size_bytes = size_bytes;
    remote_path = remote_path;
    original_filename = original_filename;
    accepted_at = accepted_at;
  }
  require (accepted_save_valid lib save)
  some save

unfoldable pub protocol_from_mapping : Fields → Option ProtocolMetadata
protocol_from_mapping mapping = do
  require (check_exact_keys mapping (codes "last_operation_id" ∷ codes "min_client_protocol" ∷ []))
  min_client_protocol ← get_integer mapping (codes "min_client_protocol")
  last_operation_id ← get_optional_string mapping (codes "last_operation_id")
  let protocol : ProtocolMetadata = record {
    min_client_protocol = min_client_protocol;
    last_operation_id = last_operation_id;
  }
  require (protocol_metadata_valid protocol)
  some protocol

-- The loops over the items of `players` and of `accepted_save_hashes`.
unfoldable pub players_from : List Value → Option (List Player)
players_from [] = some []
players_from (object fs ∷ vs) = do
  player ← player_from_mapping fs
  players ← players_from vs
  some (player ∷ players)
players_from (v ∷ vs) = none

unfoldable pub hashes_from : List Value → Option (List Text)
hashes_from [] = some []
hashes_from (string h ∷ vs) = do hashes ← hashes_from vs; some (h ∷ hashes)
hashes_from (v ∷ vs) = none

unfoldable pub save_from : Libraries → Option Fields → Option (Option AcceptedSave)
save_from lib none = some none
save_from lib (some fs) = do save ← accepted_save_from_mapping lib fs; some (some save)

-- The four nested members of the mapping.
unfoldable pub read_players : Fields → Option (List Player)
read_players mapping = do
  players_raw ← get_array mapping (codes "players")
  players_from players_raw

unfoldable pub read_hashes : Fields → Option (List Text)
read_hashes mapping = do
  hashes_raw ← get_array mapping (codes "accepted_save_hashes")
  hashes_from hashes_raw

unfoldable pub read_accepted_save : Libraries → Fields → Option (Option AcceptedSave)
read_accepted_save lib mapping = do
  accepted_raw ← get_optional_object mapping (codes "accepted_save")
  save_from lib accepted_raw

unfoldable pub read_protocol : Fields → Option ProtocolMetadata
read_protocol mapping = do
  protocol_raw ← get_object mapping (codes "protocol")
  protocol_from_mapping protocol_raw

abbrev pub manifest_keys : List Text
manifest_keys =
    codes "accepted_save"
    ∷ codes "accepted_save_hashes"
    ∷ codes "current_player_id"
    ∷ codes "display_name"
    ∷ codes "game_id"
    ∷ codes "last_sender_id"
    ∷ codes "players"
    ∷ codes "previous_manifest_ref"
    ∷ codes "protocol"
    ∷ codes "protocol_sequence"
    ∷ codes "schema_version"
    ∷ []

-- `Manifest.from_mapping`
unfoldable pub from_mapping : Libraries → Fields → Option Manifest
from_mapping lib mapping = do
  require (check_exact_keys mapping manifest_keys)
  players ← read_players mapping
  hashes ← read_hashes mapping
  accepted_save ← read_accepted_save lib mapping
  protocol ← read_protocol mapping
  schema_version ← get_integer mapping (codes "schema_version")
  game_id ← get_string mapping (codes "game_id")
  display_name ← get_string mapping (codes "display_name")
  protocol_sequence ← get_integer mapping (codes "protocol_sequence")
  current_player_id ← get_string mapping (codes "current_player_id")
  last_sender_id ← get_optional_string mapping (codes "last_sender_id")
  previous_manifest_ref ← get_optional_string mapping (codes "previous_manifest_ref")
  let m : Manifest = record {
    schema_version = schema_version;
    game_id = game_id;
    display_name = display_name;
    players = players;
    protocol_sequence = protocol_sequence;
    current_player_id = current_player_id;
    last_sender_id = last_sender_id;
    accepted_save = accepted_save;
    accepted_save_hashes = hashes;
    previous_manifest_ref = previous_manifest_ref;
    protocol = protocol;
  }
  require (manifest_post_init m)
  some m

unfoldable pub to_json_bytes : Libraries → Manifest → Bytes
to_json_bytes lib m = lib.json_dumps (object (to_mapping m))

unfoldable pub from_json_bytes : Libraries → Bytes → Option Manifest
from_json_bytes lib content = do
  mapping ← parse_json_object_bytes lib content
  from_mapping lib mapping
