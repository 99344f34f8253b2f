-- ===== src/Protocol/Handoff/Effect/Commit.antt =====
-- protocol/handoff.py: the effect of `commit_handoff` on the manifest, the lock and the cleanup
-- included.
use civ4_turn_relay.Prelude.{
  ◌≡◌, ◌≢◌, inl, inr, refl, subst, Bool, false, Option, none, some, Text, Bytes, arith,
}
use civ4_turn_relay.Domain.Libraries.{Libraries}
use civ4_turn_relay.Storage.Port.{Storage}
use civ4_turn_relay.Storage.Laws.{StorageLaws}
use civ4_turn_relay.Protocol.Action
use civ4_turn_relay.Protocol.Action.{World, Action, pure, continue, ◌>>=◌}
use civ4_turn_relay.Protocol.Action.Keeps.{Keeps-write_journal, Keeps-read_storage}
use civ4_turn_relay.Protocol.Action.Ensures.{
  Ensures, Ensures-pure, Ensures-bind, Ensures-lift, Ensures-if,
}
use civ4_turn_relay.Protocol.Paths.{manifest, upload_lock_json, upload_lock_dir}
use civ4_turn_relay.Protocol.Paths.Distinct.{Begins-ne, upload_lock_json-Begins, manifest-Begins}
use civ4_turn_relay.Protocol.Lock.Keeps.{release-Keeps, acquire-Keeps}
use civ4_turn_relay.Protocol.Lock.Release.{
  LockReleaseOutcome, released, absent_lock, not_owned, unreadable_lock, transport_failed,
  release_owned_upload_lock,
}
use civ4_turn_relay.Protocol.Lock.Acquire
use civ4_turn_relay.Protocol.Lock.Acquire.{LockAcquireOutcome}
use civ4_turn_relay.Protocol.Handoff.Request.{
  HandoffRequest, HandoffResult, HandoffOutcome, CleanupAction, retain, terminal_release,
  success_release, committed, lock_cleanup_ambiguous, owner_of, fail,
}
use civ4_turn_relay.Protocol.Handoff.Owned.{Run, run_owned_handoff}
use civ4_turn_relay.Protocol.Handoff.Cleanup.{
  ambiguous_result, clear_journal, after_release, apply_cleanup,
}
use civ4_turn_relay.Protocol.Handoff.Commit.{
  lock_request, refuse, run_and_clean, after_outcome, after_lock, commit_handoff,
}
use civ4_turn_relay.Protocol.Handoff.Effect.{
  IsUncertain, Effect, untouched, replaced, uncertain, RaisedEffect, unchanged, stepped, Claims,
  FinalClaims, EffectOf,
}
use civ4_turn_relay.Protocol.Handoff.Effect.Replace.{result_of, on_read, on_list}
use civ4_turn_relay.Protocol.Handoff.Effect.Owned.{view}
use civ4_turn_relay.Protocol.Handoff.Effect.Run.{run-Ensures}

IsUncertain-ne : (o : HandoffOutcome) → IsUncertain o → o ≢ committed
IsUncertain-ne o u e = subst IsUncertain e u

quiet : (r : HandoffResult) → r.outcome ≢ committed → (ambiguous_result r).manifest_changed ≡ false
unfolding ambiguous_result
quiet r n = ground arith

-- What the cleanup makes of a result, with the same effect.
module _ (lib : Libraries) (q : HandoffRequest) (r : HandoffResult) (b a : Option Bytes) where
  final : Effect lib q (Claims lib q) r b a → Effect lib q (FinalClaims lib q) r b a
  final (untouched n c e) = untouched n c e
  final (replaced new k c m step e) = replaced new (inl k) c m step e
  final (uncertain new u c step e) = uncertain new u c step e

  final-ambiguous :
      Effect lib q (Claims lib q) r b a → Effect lib q (FinalClaims lib q) (ambiguous_result r) b a
  unfolding ambiguous_result
  final-ambiguous (untouched n c e) = untouched (λ x. cc) (ground arith) e
  final-ambiguous (replaced new k c m step e) = replaced new (inr refl) (ground arith) m step e
  final-ambiguous (uncertain new u c step e) =
      uncertain new tt (quiet r (IsUncertain-ne r.outcome u)) step e

  final-unreadable :
      Effect lib q (Claims lib q) r b a
      → Effect lib q (FinalClaims lib q) (record r { outcome = lock_cleanup_ambiguous }) b a
  final-unreadable (untouched n c e) = untouched (λ x. cc) c e
  final-unreadable (replaced new k c m step e) = replaced new (inr refl) c m step e
  final-unreadable (uncertain new u c step e) = uncertain new tt c step e

  -- The cleanup itself may raise.
  raised : Effect lib q (Claims lib q) r b a → RaisedEffect lib q b a
  raised (untouched n c e) = unchanged e
  raised (replaced new k c m step e) = stepped new step e
  raised (uncertain new u c step e) = stepped new step e

module _ {S : Type 0} (storage : Storage S) (laws : StorageLaws storage) (lib : Libraries)
    (q : HandoffRequest) where
  abbrev seen : S → Option Bytes
  seen = view storage laws lib q

  lock_json-apart : upload_lock_json q.game_id ≢ manifest q.game_id
  lock_json-apart =
      Begins-ne q.game_id b'l' b'm' (upload_lock_json q.game_id) (manifest q.game_id)
        (λ e. ground arith) (upload_lock_json-Begins q.game_id) (manifest-Begins q.game_id)

  -- What the run did to the file still holds of the result of its cleanup.
  abbrev Ends : HandoffResult → Action S HandoffResult → Type 0
  Ends r = Ensures seen (λ o x y.
      (b : Option Bytes)
      → Effect lib q (Claims lib q) r b x
      → EffectOf lib q (FinalClaims lib q) o b y)

  clear_journal-Ends : (r : HandoffResult) → Ends r (clear_journal storage lib q r)
  unfolding clear_journal
  clear_journal-Ends r =
      Ensures-bind _ _ (Keeps-write_journal seen _) (λ x b. raised lib q r b x)
        (λ _. Ensures-pure r (λ x b. final lib q r b x))

  after_release-Ends :
      (r : HandoffResult) (o : LockReleaseOutcome) → Ends r (after_release storage lib q r o)
  unfolding after_release
  after_release-Ends r transport_failed = Ensures-pure _ (λ x b. final-ambiguous lib q r b x)
  after_release-Ends r released = clear_journal-Ends r
  after_release-Ends r absent_lock = clear_journal-Ends r
  after_release-Ends r not_owned = clear_journal-Ends r
  after_release-Ends r unreadable_lock = Ensures-pure _ (λ x b. final-unreadable lib q r b x)

  released-Ends :
      (r : HandoffResult)
      → Ends r (
          release_owned_upload_lock storage lib q.game_id (owner_of q)
          >>= after_release storage lib q r)
  released-Ends r =
      Ensures-bind _ _
        (release-Keeps storage lib seen (on_read storage laws lib q) (on_list storage laws lib q)
          q.game_id
          (λ s.
            laws.file-remove_file_ne (upload_lock_json q.game_id) (manifest q.game_id) s
              lock_json-apart)
          (λ s. laws.file-remove_dir (upload_lock_dir q.game_id) (manifest q.game_id) s)
          (owner_of q))
        (λ x b. raised lib q r b x) (after_release-Ends r)

  apply_cleanup-Ends :
      (r : HandoffResult) (c : CleanupAction) → Ends r (apply_cleanup storage lib q r c)
  unfolding apply_cleanup
  apply_cleanup-Ends r retain = Ensures-pure r (λ x b. final lib q r b x)
  apply_cleanup-Ends r terminal_release = released-Ends r
  apply_cleanup-Ends r success_release = released-Ends r

  abbrev HasEffect : Action S HandoffResult → Type 0
  HasEffect = Ensures seen (EffectOf lib q (FinalClaims lib q))

  refuse-Ensures : (o : HandoffOutcome) → o ≢ committed → HasEffect (refuse storage lib q o)
  unfolding refuse fail
  refuse-Ensures o n = Ensures-pure _ (λ x. untouched n refl refl)

  run_and_clean-Ensures : (ext : Text) → HasEffect (run_and_clean storage lib q ext)
  unfolding run_and_clean Action.◌>>=◌
  run_and_clean-Ensures ext = record {
    at = λ w.
        go w (run_owned_handoff storage lib q ext w) ((run-Ensures storage laws lib q ext).at w);
  }
    where
      go :
          (w : World S) (out : Option Run × World S)
          → EffectOf lib q (Claims lib q) (result_of out.0) (seen w.storage) (seen out.1.storage)
          → EffectOf lib q
              (FinalClaims lib q)
              (continue out.0 (λ r. apply_cleanup storage lib q r.0 r.1) out.1).0
              (seen w.storage)
              (seen (continue out.0 (λ r. apply_cleanup storage lib q r.0 r.1) out.1).1.storage)
      go w (none, w') e = e
      go w (some r, w') e = (apply_cleanup-Ends r.0 r.1).at w' (seen w.storage) e

  after_outcome-Ensures :
      (ext : Text) (owned : Bool) (o : LockAcquireOutcome)
      → HasEffect (after_outcome storage lib q ext owned o)
  unfolding after_outcome
  after_outcome-Ensures ext owned Acquire.foreign_held = refuse-Ensures _ (λ e. cc)
  after_outcome-Ensures ext owned Acquire.unreadable = refuse-Ensures _ (λ e. cc)
  after_outcome-Ensures ext owned Acquire.capability_failure = refuse-Ensures _ (λ e. cc)
  after_outcome-Ensures ext owned Acquire.transport_failure = refuse-Ensures _ (λ e. cc)
  after_outcome-Ensures ext owned _ =
      Ensures-if owned _ _ (λ _. run_and_clean-Ensures ext) (λ _. refuse-Ensures _ (λ e. cc))

  commit_handoff-Ensures : HasEffect (commit_handoff storage lib q)
  unfolding commit_handoff after_lock lock_request
  commit_handoff-Ensures =
      Ensures-lift _ _ (λ x. unchanged refl)
        (λ ext _.
          Ensures-bind _ _ (Keeps-read_storage _) (λ x. unchanged refl)
            (λ able.
              Ensures-if able _ _
                (λ _.
                  Ensures-bind _ _
                    (acquire-Keeps storage lib seen (on_read storage laws lib q)
                      (on_list storage laws lib q) (lock_request storage lib q)
                      (λ s. laws.file-mkdir (upload_lock_dir q.game_id) (manifest q.game_id) s)
                      (λ b s.
                        laws.file-write_ne (upload_lock_json q.game_id) (manifest q.game_id) b false
                          s lock_json-apart))
                    (λ x. unchanged refl)
                    (λ lock. after_outcome-Ensures ext lock.owned lock.outcome))
                (λ _. refuse-Ensures _ (λ e. cc))))

  -- Over any adapter that keeps the storage laws, which allow errors and interrupted operations,
  -- `commit_handoff` either leaves the authoritative manifest as it was, and then reports no commit
  -- and no change, or replaces it by the exact bytes of a valid successor of a manifest that parses
  -- from bytes: it was the caller's turn there, the save's digest was not in its history, the sequence
  -- goes up by one and the turn to the next player, and the reference is the history path of those
  -- bytes. It reports a changed manifest only in the second case, with that manifest, as committed
  -- or as lock_cleanup_ambiguous; a replacement that it does not report has one of three outcomes,
  -- transport_failure, idempotent_ack or lock_cleanup_ambiguous, or a raise.
  pub commit_handoff-Effect :
      (w : World S)
      → EffectOf lib q
          (FinalClaims lib q)
          (commit_handoff storage lib q w).0
          (laws.file w.storage (manifest q.game_id))
          (laws.file (commit_handoff storage lib q w).1.storage (manifest q.game_id))
  commit_handoff-Effect w = commit_handoff-Ensures.at w
