-- ===== src/Protocol/Handoff/Effect.antt =====
-- What a handoff may do to the authoritative manifest, as a specification beside protocol/handoff.py:
-- nothing, or the one step from a manifest to its successor; and what its result says of it.
pub mod Replace
pub mod Owned
pub mod Step
pub mod Upload
pub mod Run
pub mod Commit
pub mod Readable
use civ4_turn_relay.Prelude.{
  ◌≡◌, ◌≢◌, ◌⊎◌, ◌+◌, ◌++◌, ◌∷◌, [], Bool, true, false, Option, none, some, Bytes, contains, length,
}
use civ4_turn_relay.Domain.Libraries.{Libraries}
use civ4_turn_relay.Domain.Manifest.{Manifest, AcceptedSave, manifest_valid}
use civ4_turn_relay.Domain.Manifest.Codec.{to_json_bytes, from_json_bytes}
use civ4_turn_relay.Protocol.Players.{next_human_player_id}
use civ4_turn_relay.Protocol.Paths.{history_manifest_relative}
use civ4_turn_relay.Protocol.Handoff.Request.{
  HandoffRequest, HandoffResult, HandoffOutcome, committed, idempotent_ack, lock_cleanup_ambiguous,
  transport_failure,
}
use civ4_turn_relay.Protocol.Handoff.Plan.{digest}

-- `new` is the successor of `m` by the request: it was the caller's turn, the save is new, and the
-- turn goes to the next player.
pub record IsSuccessor (lib : Libraries) (q : HandoffRequest) (m new : Manifest) : Type 0 where
  pub turn : m.current_player_id ≡ q.local_player_id
  pub fresh : contains m.accepted_save_hashes (digest lib q) ≡ false
  pub next : next_human_player_id m q.local_player_id ≡ some new.current_player_id
  pub sequence : new.protocol_sequence ≡ m.protocol_sequence + 1
  pub hashes : new.accepted_save_hashes ≡ m.accepted_save_hashes ++ (digest lib q ∷ [])
  pub sender : new.last_sender_id ≡ some q.local_player_id
  pub players : new.players ≡ m.players
  pub game : new.game_id ≡ q.game_id
  pub operation : new.protocol.last_operation_id ≡ some q.operation_id
  pub save : AcceptedSave
  pub accepted : new.accepted_save ≡ some save
  pub digest_of_save : save.sha256 ≡ digest lib q
  pub size_of_save : save.size_bytes ≡ length q.outgoing_bytes
  pub valid : manifest_valid lib new ≡ true

-- The successor of the manifest that the bytes hold, with a reference to their archived copy.
pub record IsStep (lib : Libraries) (q : HandoffRequest) (new : Manifest) : Type 0 where
  pub raw : Bytes
  pub old : Manifest
  pub parsed : from_json_bytes lib raw ≡ some old
  pub successor : IsSuccessor lib q old new
  pub archived :
      history_manifest_relative old.protocol_sequence (lib.sha256_hexdigest raw)
      ≡ new.previous_manifest_ref

-- The outcomes of a run that may have replaced the manifest without claiming so.
abbrev pub IsUncertain : HandoffOutcome → Type 0
IsUncertain transport_failure = Unit
IsUncertain idempotent_ack = Unit
IsUncertain lock_cleanup_ambiguous = Unit
IsUncertain _ = ⊥

module _ (lib : Libraries) (q : HandoffRequest) where
  -- What a run that ended with this result did to the manifest's file; `claim` is the outcome of a
  -- run that says it changed the manifest.
  pub data Effect (claim : HandoffOutcome → Type 0) (r : HandoffResult)
      (before after : Option Bytes) : Type 0 where
    untouched :
        r.outcome ≢ committed
        → r.manifest_changed ≡ false
        → after ≡ before
        → Effect claim r before after
    replaced :
        (new : Manifest)
        → claim r.outcome
        → r.manifest_changed ≡ true
        → r.manifest ≡ some new
        → IsStep lib q new
        → after ≡ some (to_json_bytes lib new)
        → Effect claim r before after
    uncertain :
        (new : Manifest)
        → IsUncertain r.outcome
        → r.manifest_changed ≡ false
        → IsStep lib q new
        → after ≡ some (to_json_bytes lib new)
        → Effect claim r before after

  -- A run that raised has no result.
  pub data RaisedEffect (before after : Option Bytes) : Type 0 where
    unchanged : after ≡ before → RaisedEffect before after
    stepped :
        (new : Manifest)
        → IsStep lib q new
        → after ≡ some (to_json_bytes lib new)
        → RaisedEffect before after

  abbrev pub Claims : HandoffOutcome → Type 0
  Claims o = o ≡ committed

  -- After the cleanup a commit may be reported as an ambiguous cleanup.
  abbrev pub FinalClaims : HandoffOutcome → Type 0
  FinalClaims o = (o ≡ committed) ⊎ (o ≡ lock_cleanup_ambiguous)

  abbrev pub EffectOf :
      (HandoffOutcome → Type 0) → Option HandoffResult → Option Bytes → Option Bytes → Type 0
  EffectOf claim none before after = RaisedEffect before after
  EffectOf claim (some r) before after = Effect claim r before after
