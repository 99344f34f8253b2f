-- ===== src/Domain/Manifest/RoundTrip.antt =====
-- domain/manifest.py: what a manifest that exists writes, it reads back as it was.
use civ4_turn_relay.Prelude.{
  ◌≡◌, refl, true, Option, none, some, List, [], ◌∷◌, Text, Bytes, codes, arith,
}
use civ4_turn_relay.Domain.Json.{Value, Fields, from_list, to_list, object}
use civ4_turn_relay.Domain.Libraries.{Libraries, JsonReadsBack}
use civ4_turn_relay.Domain.Paths.{all_of}
use civ4_turn_relay.Domain.Serialization.{
  parse_json_object_bytes, check_exact_keys, get_string, get_optional_string, get_integer,
  get_array, get_object, get_optional_object, is_strict, strict_items, has_key,
}
use civ4_turn_relay.Domain.Manifest.{
  Player, AcceptedSave, ProtocolMetadata, Manifest, optional, player_valid, accepted_save_valid,
  manifest_valid, protocol_metadata_valid, manifest_post_init,
}
use civ4_turn_relay.Domain.Manifest.Codec.{
  optional_string, optional_save, read_players, read_hashes, read_accepted_save, read_protocol,
  manifest_keys, player_to_mapping, accepted_save_to_mapping, protocol_to_mapping, player_values,
  hash_values, to_mapping, player_from_mapping, accepted_save_from_mapping, protocol_from_mapping,
  players_from, hashes_from, save_from, from_mapping, to_json_bytes, from_json_bytes,
}

pub to_list-from_list : (vs : List Value) → to_list (from_list vs) ≡ vs
unfolding to_list from_list
to_list-from_list [] = refl
to_list-from_list (v ∷ vs) = rw (to_list-from_list vs)

player_lem :
    (p : Player) → player_valid p ≡ true → player_from_mapping (player_to_mapping p) ≡ some p
unfolding player_from_mapping player_to_mapping check_exact_keys get_string
player_lem p h = rw h

players_lem :
    (ps : List Player) → all_of player_valid ps ≡ true → players_from (player_values ps) ≡ some ps
unfolding players_from player_values all_of
players_lem [] h = refl
players_lem (p ∷ ps) h = ground (arith, player_lem p, players_lem ps)

pub hashes_lem : (hs : List Text) → hashes_from (hash_values hs) ≡ some hs
unfolding hashes_from hash_values
hashes_lem [] = refl
hashes_lem (h ∷ hs) = rw (hashes_lem hs)

save_lem :
    (lib : Libraries) (a : AcceptedSave)
    → accepted_save_valid lib a ≡ true
    → accepted_save_from_mapping lib (accepted_save_to_mapping a) ≡ some a
unfolding accepted_save_from_mapping accepted_save_to_mapping check_exact_keys get_string
    get_integer
save_lem lib a h = rw h

protocol_lem :
    (p : ProtocolMetadata)
    → protocol_metadata_valid p ≡ true
    → protocol_from_mapping (protocol_to_mapping p) ≡ some p
unfolding protocol_from_mapping protocol_to_mapping check_exact_keys get_optional_string get_integer
protocol_lem p h = ground arith

save_from_lem :
    (lib : Libraries) (m : Manifest) (a : Option AcceptedSave)
    → m.accepted_save ≡ a
    → optional (accepted_save_valid lib) a ≡ true
    → read_accepted_save lib (to_mapping m) ≡ some a
unfolding save_from get_optional_object read_accepted_save to_mapping
save_from_lem lib m none e h = rw e
save_from_lem lib m (some a) e h = rw e (rw (save_lem lib a h))

module _ (m : Manifest) where
  read_players_lem :
      all_of player_valid m.players ≡ true → read_players (to_mapping m) ≡ some m.players
  unfolding read_players to_mapping get_array
  read_players_lem h = rw (to_list-from_list (player_values m.players)) (players_lem m.players h)

  read_hashes_lem : read_hashes (to_mapping m) ≡ some m.accepted_save_hashes
  unfolding read_hashes to_mapping get_array
  read_hashes_lem =
      rw (to_list-from_list (hash_values m.accepted_save_hashes))
        (hashes_lem m.accepted_save_hashes)

  read_protocol_lem :
      protocol_metadata_valid m.protocol ≡ true → read_protocol (to_mapping m) ≡ some m.protocol
  unfolding read_protocol to_mapping get_object
  read_protocol_lem h = protocol_lem m.protocol h

  keys_lem : check_exact_keys (to_mapping m) manifest_keys ≡ true
  unfolding check_exact_keys to_mapping
  keys_lem = refl

  sender_lem : get_optional_string (to_mapping m) (codes "last_sender_id") ≡ some m.last_sender_id
  unfolding get_optional_string to_mapping
  sender_lem = ground arith

  reference_lem :
      get_optional_string (to_mapping m) (codes "previous_manifest_ref")
      ≡ some m.previous_manifest_ref
  unfolding get_optional_string to_mapping
  reference_lem = ground arith

valid_parts :
    (lib : Libraries) (m : Manifest)
    → manifest_valid lib m ≡ true
    → (all_of player_valid m.players ≡ true)
      × (optional (accepted_save_valid lib) m.accepted_save ≡ true)
      × (protocol_metadata_valid m.protocol ≡ true)
      × (manifest_post_init m ≡ true)
unfolding manifest_valid
valid_parts lib m h = ground arith

-- `from_mapping` inverts `to_mapping`.
pub from_mapping-to_mapping :
    (lib : Libraries) (m : Manifest)
    → manifest_valid lib m ≡ true
    → from_mapping lib (to_mapping m) ≡ some m
unfolding from_mapping
from_mapping-to_mapping lib m h =
    let (players, save, protocol, post) = valid_parts lib m h in
    rw
      (
        keys_lem m,
        read_players_lem m players,
        read_hashes_lem m,
        save_from_lem lib m m.accepted_save refl save,
        read_protocol_lem m protocol,
        sender_lem m,
        reference_lem m,
      )
      (unfold to_mapping get_string get_integer in rw post)

strict_players : (ps : List Player) → strict_items (from_list (player_values ps)) ≡ true
unfolding is_strict from_list player_values player_to_mapping has_key
strict_players [] = refl
strict_players (p ∷ ps) = strict_players ps

pub strict_hashes : (hs : List Text) → strict_items (from_list (hash_values hs)) ≡ true
unfolding is_strict from_list hash_values
strict_hashes [] = refl
strict_hashes (h ∷ hs) = strict_hashes hs

strict_save : (a : Option AcceptedSave) → is_strict (optional_save a) ≡ true
unfolding is_strict accepted_save_to_mapping has_key
strict_save none = refl
strict_save (some a) = refl

pub strict_text : (a : Option Text) → is_strict (optional_string a) ≡ true
unfolding is_strict
strict_text none = refl
strict_text (some a) = refl

-- The mapping has no key twice.
strict_mapping : (m : Manifest) → is_strict (object (to_mapping m)) ≡ true
unfolding is_strict to_mapping has_key protocol_to_mapping
strict_mapping m = rw (
  strict_save m.accepted_save,
  strict_hashes m.accepted_save_hashes,
  strict_text m.last_sender_id,
  strict_players m.players,
  strict_text m.previous_manifest_ref,
  strict_text m.protocol.last_operation_id,
)

pub parse_read :
    (lib : Libraries) (b : Bytes) (fs : Fields)
    → lib.json_loads b ≡ some (object fs)
    → is_strict (object fs) ≡ true
    → parse_json_object_bytes lib b ≡ some fs
unfolding parse_json_object_bytes
parse_read lib b fs e h = rw (e, parse_json_object_bytes) (rw h)

-- For libraries where `json.loads` reads back what `json.dumps` wrote, a manifest that its
-- constructor accepts is read back unchanged from its JSON bytes.
pub from_json_bytes-to_json_bytes :
    (lib : Libraries) (m : Manifest)
    → JsonReadsBack lib
    → manifest_valid lib m ≡ true
    → from_json_bytes lib (to_json_bytes lib m) ≡ some m
unfolding from_json_bytes to_json_bytes
from_json_bytes-to_json_bytes lib m back h =
    rw (parse_read lib _ (to_mapping m) (back (object (to_mapping m))) (strict_mapping m))
      (from_mapping-to_mapping lib m h)
