-- ===== src/Protocol/Handoff/Effect/Replace.antt =====
-- protocol/handoff.py: the end of `_run_owned_handoff`, from the write of the temporary manifest.
use civ4_turn_relay.Prelude.{
  ◌≡◌, ◌≢◌, ◌⊎◌, inl, inr, refl, ◌∙◌, false, Option, none, some, Text, Bytes,
}
use civ4_turn_relay.Domain.Libraries.{Libraries}
use civ4_turn_relay.Domain.Manifest.{Manifest}
use civ4_turn_relay.Domain.Manifest.Codec.{to_json_bytes}
use civ4_turn_relay.Storage.Port.{Storage, Reply, ok, err, capability, transport}
use civ4_turn_relay.Storage.Laws.{StorageLaws}
use civ4_turn_relay.Protocol.Action.{
  World, pure, write_journal, call, ◌>>=◌, ◌>>◌, changed, continue,
}
use civ4_turn_relay.Protocol.Journal.{Journal}
use civ4_turn_relay.Protocol.ManifestAccess.{ManifestReadResult, read_authoritative_manifest}
use civ4_turn_relay.Protocol.Paths.{manifest}
use civ4_turn_relay.Protocol.Handoff.Request.{
  HandoffRequest, HandoffResult, HandoffOutcome, CleanupAction, fail, committed,
}
use civ4_turn_relay.Protocol.Handoff.Owned.{
  commit_of, credit, Run, stop, after_recovery, recovered_is, reconcile_uncertain_commit,
  after_replace,
}
use civ4_turn_relay.Protocol.Lock.Observes.{read_manifest-Keeps}
use civ4_turn_relay.Protocol.Action.Keeps.{
  Keeps, of_storage, Keeps-pure, Keeps-bind, Keeps-write_journal,
}
use civ4_turn_relay.Protocol.Handoff.Effect.{
  IsUncertain, IsStep, untouched, replaced, uncertain, unchanged, stepped, Claims, EffectOf,
}

-- The result of a run, without its cleanup.
abbrev pub result_of : Option Run → Option HandoffResult
result_of none = none
result_of (some r) = some r.0

module _ (lib : Libraries) (q : HandoffRequest) where
  abbrev pub RunEffect : Option Run → Option Bytes → Option Bytes → Type 0
  RunEffect r = EffectOf lib q (Claims lib q) (result_of r)

-- A raise, or a result that does not claim a change and may hide one.
abbrev IsQuiet : Option Run → Type 0
IsQuiet none = Unit
IsQuiet (some r) =
    IsUncertain r.0.outcome × (r.0.outcome ≢ committed) × (r.0.manifest_changed ≡ false)

-- The file is as before, or holds the next manifest.
abbrev IsMoved : Libraries → HandoffRequest → Option Bytes → Option Bytes → Type 0
IsMoved lib q before after =
    (after ≡ before)
    ⊎ ((new : Manifest) × IsStep lib q new × (after ≡ some (to_json_bytes lib new)))

quiet-effect :
    (lib : Libraries) (q : HandoffRequest) (r : Option Run) (before after : Option Bytes)
    → IsQuiet r
    → IsMoved lib q before after
    → RunEffect lib q r before after
quiet-effect lib q none before after h (inl e) = unchanged e
quiet-effect lib q none before after h (inr (new, step, e)) = stepped new step e
quiet-effect lib q (some r) before after h (inl e) = untouched h.1 h.2 e
quiet-effect lib q (some r) before after h (inr (new, step, e)) = uncertain new h.0 h.2 step e

module _ {S : Type 0} where
  write_journal-IsQuiet :
      (f : Journal → Option Journal) (r : Run) (w : World S)
      → IsQuiet (some r)
      → IsQuiet ((write_journal f >> pure r) w).0
  unfolding ◌>>=◌ write_journal pure
  write_journal-IsQuiet f r w h = go (f w.journal)
    where
      go : (o : Option Journal) → IsQuiet (continue (changed w o).0 (λ _. pure r) (changed w o).1).0
      go none = tt
      go (some j) = h

module _ {S : Type 0} (storage : Storage S) (laws : StorageLaws storage) (lib : Libraries)
    (q : HandoffRequest) where
  credit-IsQuiet :
      (read : ManifestReadResult) (o : Option Manifest) (w : World S)
      → IsQuiet (credit storage lib q read o w).0
  unfolding credit stop fail
  credit-IsQuiet read (some m) w = write_journal-IsQuiet _ _ w (tt, λ e. cc, refl)
  credit-IsQuiet read none w = unfold pure in (tt, λ e. cc, refl)

  reconcile-IsQuiet :
      (payload : Bytes) (w : World S)
      → IsQuiet (reconcile_uncertain_commit storage lib q payload w).0
  unfolding reconcile_uncertain_commit after_recovery ◌>>=◌
  reconcile-IsQuiet payload w = go (read_authoritative_manifest storage lib q.game_id w)
    where
      go :
          (out : Option ManifestReadResult × World S)
          → IsQuiet (continue out.0 (after_recovery storage lib q payload) out.1).0
      go (none, w') = tt
      go (some read, w') = credit-IsQuiet read (recovered_is storage lib q payload read) w'

  abbrev pub see : S → Option Bytes
  see s = laws.file s (manifest q.game_id)

  pub on_read : (p : Text) (s : S) → see (storage.read_file p s).1 ≡ see s
  on_read p s = laws.file-read p (manifest q.game_id) s

  pub on_list : (p : Text) (s : S) → see (storage.list_dir p s).1 ≡ see s
  on_list p s = laws.file-list p (manifest q.game_id) s

  credit-Keeps :
      (read : ManifestReadResult) (o : Option Manifest)
      → Keeps (of_storage see) (credit storage lib q read o)
  unfolding credit
  credit-Keeps read (some m) = Keeps-bind _ _ (Keeps-write_journal see _) (λ _. Keeps-pure _)
  credit-Keeps read none = Keeps-pure _

  reconcile-Keeps :
      (payload : Bytes) → Keeps (of_storage see) (reconcile_uncertain_commit storage lib q payload)
  unfolding reconcile_uncertain_commit after_recovery
  reconcile-Keeps payload =
      Keeps-bind _ _ (read_manifest-Keeps storage lib see on_read on_list q.game_id)
        (λ read. credit-Keeps read (recovered_is storage lib q payload read))

  -- What the file shows after the journal took the acceptance, and the result, of a replacement that
  -- succeeded.
  accept-effect :
      (new : Manifest) (f : Journal → Option Journal) (before : Option Bytes) (w : World S)
      → IsStep lib q new
      → see w.storage ≡ some (to_json_bytes lib new)
      → RunEffect lib q
          ((write_journal f >> pure (commit_of storage lib q new)) w).0
          before
          (see ((write_journal f >> pure (commit_of storage lib q new)) w).1.storage)
  unfolding ◌>>=◌ write_journal pure commit_of
  accept-effect new f before w step e = go (f w.journal)
    where
      go :
          (o : Option Journal)
          → RunEffect lib q
              (continue (changed w o).0 (λ _. pure (commit_of storage lib q new)) (changed w o).1).0
              before
              (see
                (continue
                  (changed w o).0
                  (λ _. pure (commit_of storage lib q new))
                  (changed w o).1).1.storage)
      go none = stepped new step e
      go (some j) = replaced new refl refl refl step e

  -- After a refused replacement the file is as before.
  stopped-effect :
      (m : Manifest) (o : HandoffOutcome) (c : CleanupAction) (before : Option Bytes) (w : World S)
      → o ≢ committed
      → see w.storage ≡ before
      → RunEffect lib q
          (pure (stop storage lib q o (some m) c) w).0
          before
          (see (pure {A = Run} (stop storage lib q o (some m) c) w).1.storage)
  unfolding pure stop fail
  stopped-effect m o c before w n e = untouched n refl e

  -- Either content of an interrupted replacement is a move, and what comes after keeps it.
  moved :
      (new : Manifest) (temp : Text) (s s' : S)
      → IsStep lib q new
      → laws.file s temp ≡ some (to_json_bytes lib new)
      → see s' ≡ see (storage.atomic_replace temp (manifest q.game_id) s).1
      → IsMoved lib q (see s) (see s')
  moved new temp s s' step staged same =
      elim (laws.file-replace_either temp (manifest q.game_id) s) [
        | inl e ↦ inl (same ∙ e)
        | inr e ↦ inr (new, step, same ∙ (e ∙ staged))
      ]

  module _ (m new : Manifest) (temp : Text) (step : IsStep lib q new) where
    -- The temporary object holds the bytes of the next manifest.
    pub replace-effect :
        (w : World S)
        → laws.file w.storage temp ≡ some (to_json_bytes lib new)
        → RunEffect lib q
            (call
              (storage.atomic_replace temp (manifest q.game_id))
              (after_replace storage lib q m new)
              w).0
            (see w.storage)
            (see
              (call
                (storage.atomic_replace temp (manifest q.game_id))
                (after_replace storage lib q m new)
                w).1.storage)
    unfolding call after_replace
    replace-effect w staged = go (storage.atomic_replace temp (manifest q.game_id) w.storage).0 refl
      where
        after : World S
        after = record w {
          storage = (storage.atomic_replace temp (manifest q.game_id) w.storage).1;
        }

        go :
            (r : Reply (Unit {0}))
            → (storage.atomic_replace temp (manifest q.game_id) w.storage).0 ≡ r
            → RunEffect lib q
                (after_replace storage lib q m new r after).0
                (see w.storage)
                (see (after_replace storage lib q m new r after).1.storage)
        go (ok u) h =
            accept-effect new _ (see w.storage) after step
              (laws.file-replace temp (manifest q.game_id) w.storage h ∙ staged)
        go (err transport) h =
            quiet-effect lib q _ _ _ (reconcile-IsQuiet (to_json_bytes lib new) after) (
              moved new temp w.storage _ step staged
                ((reconcile-Keeps (to_json_bytes lib new)).same after))
        go (err capability) h =
            stopped-effect m _ _ (see w.storage) after (λ e. cc)
              (laws.file-replace_refused temp (manifest q.game_id) w.storage capability (λ e. cc) h)
        go (err e) h =
            stopped-effect m _ _ (see w.storage) after (λ e. cc)
              (laws.file-replace_refused temp (manifest q.game_id) w.storage e (λ x. cc) h)
