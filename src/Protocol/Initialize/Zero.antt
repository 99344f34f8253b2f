-- ===== src/Protocol/Initialize/Zero.antt =====
-- protocol/initialize.py: the manifest of a new match, and the reports of a run that may have written it.
use civ4_turn_relay.Prelude.{
  ◌≡◌, ◌≢◌, inl, inr, refl, subst, sym, none, Option-cases, arith, Option, some, List, [], ◌∷◌,
  Text, Bytes,
}
use civ4_turn_relay.Domain.Libraries.{Libraries}
use civ4_turn_relay.Domain.Config.{MatchConfig}
use civ4_turn_relay.Domain.Manifest.{Manifest, Player}
use civ4_turn_relay.Storage.Port.{Storage}
use civ4_turn_relay.Protocol.Action.{World, pure, continue, ◌>>=◌}
use civ4_turn_relay.Protocol.Initialize.{
  InitializeResult, capability_failure, incomplete_or_conflicting, recovered,
  classify_uncertain_commit, first_human, zero_manifest, sequence_zero_manifest,
}
use civ4_turn_relay.Protocol.ManifestAccess.{
  ManifestReadOutcome, ManifestReadResult, read_authoritative_manifest,
}

-- The manifest of a match that nobody has played: the configuration's game, name and players, of whom
-- the first is to move, and no handoff.
pub record IsZero (config : MatchConfig) (m : Manifest) : Type 0 where
  pub schema : m.schema_version ≡ 1
  pub game : m.game_id ≡ config.game_id
  pub named : m.display_name ≡ config.display_name
  pub players : m.players ≡ config.players
  pub first : Player
  pub others : List Player
  pub listed : config.players ≡ first ∷ others
  pub current : m.current_player_id ≡ first.id
  pub sequence : m.protocol_sequence ≡ 0
  pub sender : m.last_sender_id ≡ none
  pub save : m.accepted_save ≡ none
  pub hashes : m.accepted_save_hashes ≡ []
  pub previous : m.previous_manifest_ref ≡ none
  pub client : m.protocol.min_client_protocol ≡ 1
  pub operation : m.protocol.last_operation_id ≡ none

headed :
    (ps : List Player) (p : Player)
    → first_human ps ≡ some p
    → (others : List Player) × (ps ≡ p ∷ others)
headed [] p h = absurd (ground arith)
headed (x ∷ xs) p h = (xs, ground arith)

zero_parts :
    (config : MatchConfig) (m : Manifest)
    → sequence_zero_manifest config ≡ some m
    → (p : Player) × (first_human config.players ≡ some p) × (m ≡ zero_manifest config p)
unfolding sequence_zero_manifest
zero_parts config m h = elim (Option-cases (first_human config.players)) [
  | inl e ↦ absurd (ground arith)
  | inr (p, e) ↦ (p, e, ground arith)
]

pub built-IsZero :
    (config : MatchConfig) (m : Manifest) → sequence_zero_manifest config ≡ some m → IsZero config m
unfolding zero_manifest
built-IsZero config m h =
    let (p, first, e) = zero_parts config m h in
    let (others, listed) = headed config.players p first in
    subst (IsZero config) (sym e) (record {
      schema = refl;
      game = refl;
      named = refl;
      players = refl;
      first = p;
      others = others;
      listed = listed;
      current = refl;
      sequence = refl;
      sender = refl;
      save = refl;
      hashes = refl;
      previous = refl;
      client = refl;
      operation = refl;
    })

-- A raise, or an outcome of a run that may have written the manifest.
abbrev pub IsChange : Option InitializeResult → Type 0
IsChange none = Unit
IsChange (some r) = (r.outcome ≢ capability_failure) × (r.outcome ≢ incomplete_or_conflicting)

module _ {S : Type 0} (storage : Storage S) (lib : Libraries) (config : MatchConfig)
    (operation_id : Text) where
  recovered-IsChange :
      (payload : Bytes) (raw : Option Bytes) (m : Option Manifest) (o : ManifestReadOutcome)
      → IsChange (some (recovered storage lib config operation_id payload raw m o))
  unfolding recovered
  recovered-IsChange payload raw m o = ((λ e. ground arith), (λ e. ground arith))

  pub uncertain-IsChange :
      (payload : Bytes) (w : World S)
      → IsChange (classify_uncertain_commit storage lib config operation_id payload w).0
  unfolding classify_uncertain_commit ◌>>=◌ pure
  uncertain-IsChange payload w =
      go (read_authoritative_manifest storage lib config.game_id w).0
        (read_authoritative_manifest storage lib config.game_id w).1
    where
      go :
          (o : Option ManifestReadResult) (w' : World S)
          → IsChange
              (continue o
                (λ read w. (
                  some (
                      recovered storage lib config operation_id payload read.raw_bytes read.manifest
                        read.outcome),
                  w,
                ))
                w').0
      go none w' = tt
      go (some read) w' = recovered-IsChange payload read.raw_bytes read.manifest read.outcome
