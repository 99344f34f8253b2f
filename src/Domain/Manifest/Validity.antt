-- ===== src/Domain/Manifest/Validity.antt =====
-- domain/manifest.py: a manifest that was read is valid.
use civ4_turn_relay.Prelude.{◌≡◌, true, Option, none, some, List, [], ◌∷◌, Bytes, arith}
use civ4_turn_relay.Domain.Json.{Value, object, Fields}
use civ4_turn_relay.Domain.Libraries.{Libraries}
use civ4_turn_relay.Domain.Paths.{all_of}
use civ4_turn_relay.Domain.Manifest.{
  Player, AcceptedSave, ProtocolMetadata, Manifest, player_valid, accepted_save_valid,
  protocol_metadata_valid, optional, manifest_valid,
}
use civ4_turn_relay.Domain.Manifest.Codec.{
  player_from_mapping, accepted_save_from_mapping, protocol_from_mapping, players_from, save_from,
  read_players, read_accepted_save, read_protocol, from_mapping, from_json_bytes,
}

player-valid : (fs : Fields) (p : Player) → player_from_mapping fs ≡ some p → player_valid p ≡ true
unfolding player_from_mapping
player-valid fs p h = ground arith

players-valid :
    (vs : List Value) (ps : List Player) → players_from vs ≡ some ps → all_of player_valid ps ≡ true
unfolding players_from all_of
players-valid [] ps h = ground arith
players-valid (object fs ∷ vs) ps h = grind (arith, player-valid, players-valid vs)
players-valid (v ∷ vs) ps h = cc

save-valid :
    (lib : Libraries) (fs : Fields) (a : AcceptedSave)
    → accepted_save_from_mapping lib fs ≡ some a
    → accepted_save_valid lib a ≡ true
unfolding accepted_save_from_mapping
save-valid lib fs a h = ground arith

saves-valid :
    (lib : Libraries) (o : Option Fields) (a : Option AcceptedSave)
    → save_from lib o ≡ some a
    → optional (accepted_save_valid lib) a ≡ true
unfolding save_from
saves-valid lib none a h = ground arith
saves-valid lib (some fs) a h = grind (arith, save-valid)

protocol-valid :
    (fs : Fields) (p : ProtocolMetadata)
    → protocol_from_mapping fs ≡ some p
    → protocol_metadata_valid p ≡ true
unfolding protocol_from_mapping
protocol-valid fs p h = ground arith

read_players-valid :
    (fs : Fields) (ps : List Player) → read_players fs ≡ some ps → all_of player_valid ps ≡ true
unfolding read_players
read_players-valid fs ps h = grind (arith, players-valid)

read_save-valid :
    (lib : Libraries) (fs : Fields) (a : Option AcceptedSave)
    → read_accepted_save lib fs ≡ some a
    → optional (accepted_save_valid lib) a ≡ true
unfolding read_accepted_save
read_save-valid lib fs a h = grind (arith, saves-valid)

read_protocol-valid :
    (fs : Fields) (p : ProtocolMetadata)
    → read_protocol fs ≡ some p
    → protocol_metadata_valid p ≡ true
unfolding read_protocol
read_protocol-valid fs p h = grind (arith, protocol-valid)

from_mapping-valid :
    (lib : Libraries) (fs : Fields) (m : Manifest)
    → from_mapping lib fs ≡ some m
    → manifest_valid lib m ≡ true
unfolding from_mapping manifest_valid
from_mapping-valid lib fs m h =
    grind (arith, read_players-valid, read_save-valid, read_protocol-valid)

-- A manifest that is read from bytes is valid: it has passed the validations of its players, its
-- accepted save, its metadata, its hashes and the coupling of its sequence.
pub from_json_bytes-valid :
    (lib : Libraries) (b : Bytes) (m : Manifest)
    → from_json_bytes lib b ≡ some m
    → manifest_valid lib m ≡ true
unfolding from_json_bytes
from_json_bytes-valid lib b m h = grind (arith, from_mapping-valid)
