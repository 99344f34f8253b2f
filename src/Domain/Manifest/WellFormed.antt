-- ===== src/Domain/Manifest/WellFormed.antt =====
-- domain/manifest.py: what every manifest that was read satisfies.
use civ4_turn_relay.Prelude.{
  ◌≤◌, ◌≡◌, ◌≢◌, ◌⊎◌, true, length, none, some, List, [], ◌∷◌, ◌++◌, Text, contains, count,
}
use civ4_turn_relay.Domain.Libraries.{Libraries}
use civ4_turn_relay.Domain.Manifest.{Manifest, AcceptedSave, player_ids}

-- Nothing was handed over yet.
pub record IsUnplayed (m : Manifest) : Type 0 where
  pub sequence : m.protocol_sequence ≡ 0
  pub save : m.accepted_save ≡ none
  pub hashes : m.accepted_save_hashes ≡ []
  pub sender : m.last_sender_id ≡ none
  pub previous : m.previous_manifest_ref ≡ none
  pub operation : m.protocol.last_operation_id ≡ none

-- The last handoff: its save, whose digest is the last one, its sender, who is a player, its operation
-- and the archived manifest before it.
pub record IsPlayed (m : Manifest) : Type 0 where
  pub sequence : m.protocol_sequence ≢ 0
  pub save : AcceptedSave
  pub accepted : m.accepted_save ≡ some save
  pub not_empty : save.size_bytes ≢ 0
  pub earlier : List Text
  pub hashes : m.accepted_save_hashes ≡ earlier ++ save.sha256 ∷ []
  pub sender : Text
  pub sent_by : m.last_sender_id ≡ some sender
  pub listed : contains (player_ids m.players) sender ≡ true
  pub previous : m.previous_manifest_ref ≢ none
  pub operation : m.protocol.last_operation_id ≢ none

pub record IsWellFormed (m : Manifest) : Type 0 where
  pub schema : m.schema_version ≡ 1
  pub named : m.display_name ≢ []
  pub distinct : (t : Text) → count t (player_ids m.players) ≤ 1
  pub current : contains (player_ids m.players) m.current_player_id ≡ true
  pub once : (t : Text) → count t m.accepted_save_hashes ≤ 1
  pub one_each : length m.accepted_save_hashes ≡ m.protocol_sequence
  pub history : (IsUnplayed m) ⊎ (IsPlayed m)
