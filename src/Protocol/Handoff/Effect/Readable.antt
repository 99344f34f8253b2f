-- ===== src/Protocol/Handoff/Effect/Readable.antt =====
-- protocol/handoff.py: what a handoff commits, the next client can read.
use civ4_turn_relay.Prelude.{◌≡◌, ◌⊎◌, inl, inr, true, false, Option, none, some, Bytes}
use civ4_turn_relay.Domain.Libraries.{Libraries, JsonReadsBack}
use civ4_turn_relay.Domain.Manifest.{Manifest, manifest_valid}
use civ4_turn_relay.Domain.Manifest.Codec.{to_json_bytes, from_json_bytes}
use civ4_turn_relay.Domain.Manifest.RoundTrip.{from_json_bytes-to_json_bytes}
use civ4_turn_relay.Storage.Port.{Storage}
use civ4_turn_relay.Storage.Laws.{StorageLaws}
use civ4_turn_relay.Protocol.Action.{World}
use civ4_turn_relay.Protocol.Paths.{manifest}
use civ4_turn_relay.Protocol.Handoff.Request.{HandoffRequest, HandoffResult}
use civ4_turn_relay.Protocol.Handoff.Commit.{commit_handoff}
use civ4_turn_relay.Protocol.Handoff.Effect.{
  IsStep, untouched, replaced, uncertain, unchanged, stepped, FinalClaims, EffectOf,
}
use civ4_turn_relay.Protocol.Handoff.Effect.Commit.{commit_handoff-Effect}

-- The file holds bytes that parse to a valid manifest.
abbrev pub Holds : Libraries → Option Bytes → Manifest → Type 0
Holds lib file m =
    (b : Bytes) × (file ≡ some b) × (from_json_bytes lib b ≡ some m) × (manifest_valid lib m ≡ true)

-- The file is as it was, or holds a manifest; the one that is reported, if a change is.
abbrev pub IsReadable : Libraries → Option HandoffResult → Option Bytes → Option Bytes → Type 0
IsReadable lib none before after = (after ≡ before) ⊎ ((m : Manifest) × Holds lib after m)
IsReadable lib (some r) before after =
    ((r.manifest_changed ≡ false) × (after ≡ before))
    ⊎ ((m : Manifest) × ((r.manifest_changed ≡ false) ⊎ (r.manifest ≡ some m)) × Holds lib after m)

step-Holds :
    (lib : Libraries) (q : HandoffRequest) (new : Manifest) (after : Option Bytes)
    → JsonReadsBack lib
    → IsStep lib q new
    → after ≡ some (to_json_bytes lib new)
    → Holds lib after new
step-Holds lib q new after back step e = (
  to_json_bytes lib new,
  e,
  from_json_bytes-to_json_bytes lib new back step.successor.valid,
  step.successor.valid,
)

EffectOf-IsReadable :
    (lib : Libraries) (q : HandoffRequest) (r : Option HandoffResult) (before after : Option Bytes)
    → JsonReadsBack lib
    → EffectOf lib q (FinalClaims lib q) r before after
    → IsReadable lib r before after
EffectOf-IsReadable lib q none before after back (unchanged e) = inl e
EffectOf-IsReadable lib q none before after back (stepped new step e) =
    inr (new, step-Holds lib q new after back step e)
EffectOf-IsReadable lib q (some r) before after back (untouched n c e) = inl (c, e)
EffectOf-IsReadable lib q (some r) before after back (replaced new k c m step e) =
    inr (new, inr m, step-Holds lib q new after back step e)
EffectOf-IsReadable lib q (some r) before after back (uncertain new u c step e) =
    inr (new, inl c, step-Holds lib q new after back step e)

-- Over any adapter with the storage laws, and libraries where json.loads reads back what json.dumps
-- wrote, a handoff leaves the authoritative manifest as it was, and then reports no change, or leaves
-- bytes there that parse to a valid manifest: the one of the result, if the result reports a change.
pub commit_handoff-IsReadable :
    {S : Type 0} (storage : Storage S) (laws : StorageLaws storage) (lib : Libraries)
    (q : HandoffRequest) (w : World S)
    → JsonReadsBack lib
    → IsReadable lib
        (commit_handoff storage lib q w).0
        (laws.file w.storage (manifest q.game_id))
        (laws.file (commit_handoff storage lib q w).1.storage (manifest q.game_id))
commit_handoff-IsReadable storage laws lib q w back =
    EffectOf-IsReadable lib q _ _ _ back (commit_handoff-Effect storage laws lib q w)
