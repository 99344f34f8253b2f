-- ===== src/Protocol/Handoff/Effect/Owned.antt =====
-- protocol/handoff.py: the effect of the commit of a staged manifest, from its write.
use civ4_turn_relay.Prelude.{◌≡◌, ◌≢◌, refl, ◌∙◌, subst, true, Option, none, some, Text, Bytes}
use civ4_turn_relay.Domain.Libraries.{Libraries}
use civ4_turn_relay.Domain.Manifest.{Manifest}
use civ4_turn_relay.Domain.Manifest.Codec.{to_json_bytes}
use civ4_turn_relay.Storage.Port.{Storage, Reply, ok, err}
use civ4_turn_relay.Storage.Laws.{StorageLaws}
use civ4_turn_relay.Protocol.Action.{World, pure, call, ◌>>=◌, continue}
use civ4_turn_relay.Protocol.Action.Ensures.{Ensures, Ensures-pure}
use civ4_turn_relay.Protocol.Paths.{manifest}
use civ4_turn_relay.Protocol.Lock.Release.{
  LockOwnershipCheck, LockOwnershipStatus, check_lock_ownership,
}
use civ4_turn_relay.Protocol.Lock.Release
use civ4_turn_relay.Protocol.Lock.Observes.{check-Keeps}
use civ4_turn_relay.Protocol.Handoff.Request
use civ4_turn_relay.Protocol.Handoff.Request.{
  HandoffRequest, HandoffOutcome, CleanupAction, committed, owner_of, fail, cleanup_for_result,
}
use civ4_turn_relay.Protocol.Handoff.Stage.{write_failure}
use civ4_turn_relay.Protocol.Handoff.Failures.{write_failure-ne}
use civ4_turn_relay.Protocol.Handoff.Owned.{
  stop, stop_failed, after_ownership, after_manifest_write,
}
use civ4_turn_relay.Protocol.Handoff.Effect.{IsStep, untouched, unchanged}
use civ4_turn_relay.Protocol.Handoff.Effect.Replace.{RunEffect, replace-effect}

module _ {S : Type 0} (storage : Storage S) (laws : StorageLaws storage) (lib : Libraries)
    (q : HandoffRequest) where
  abbrev pub view : S → Option Bytes
  view s = laws.file s (manifest q.game_id)

  pub stop-Ensures :
      (o : HandoffOutcome) (m : Option Manifest) (c : CleanupAction)
      → o ≢ committed
      → Ensures view (RunEffect lib q) (pure (stop storage lib q o m c))
  unfolding stop fail
  stop-Ensures o m c n = Ensures-pure _ (λ x. untouched n refl refl)

  -- With the next manifest staged at `temp`, the ownership check decides.
  ownership-effect :
      (m new : Manifest) (temp : Text) (step : IsStep lib q new) (c : LockOwnershipStatus)
      (w : World S)
      → laws.file w.storage temp ≡ some (to_json_bytes lib new)
      → RunEffect lib q
          (after_ownership storage lib q m new temp c w).0
          (view w.storage)
          (view (after_ownership storage lib q m new temp c w).1.storage)
  unfolding after_ownership
  ownership-effect m new temp step Release.owned w staged =
      replace-effect storage laws lib q m new temp step w staged
  ownership-effect m new temp step Release.transport_failure w staged =
      (stop-Ensures Request.transport_failure (some m) Request.retain (λ e. cc)).at w
  ownership-effect m new temp step _ w staged =
      (stop-Ensures Request.lock_ownership_lost (some m) Request.terminal_release (λ e. cc)).at w

  checked-effect :
      (m new : Manifest) (temp : Text) (step : IsStep lib q new) (w : World S)
      → laws.file w.storage temp ≡ some (to_json_bytes lib new)
      → RunEffect lib q
          (after_manifest_write storage lib q m new temp (ok tt) w).0
          (view w.storage)
          (view (after_manifest_write storage lib q m new temp (ok tt) w).1.storage)
  unfolding after_manifest_write ◌>>=◌
  checked-effect m new temp step w staged =
      go (check_lock_ownership storage lib q.game_id (owner_of q) w)
        ((check-Keeps storage lib view (λ p. laws.file-read p _) (λ p. laws.file-list p _) q.game_id
            (owner_of q)).same
          w)
        ((check-Keeps storage lib (λ s. laws.file s temp) (λ p. laws.file-read p _)
              (λ p. laws.file-list p _) q.game_id (owner_of q)).same
            w
          ∙ staged)
    where
      go :
          (out : Option LockOwnershipCheck × World S)
          → view out.1.storage ≡ view w.storage
          → laws.file out.1.storage temp ≡ some (to_json_bytes lib new)
          → RunEffect lib q
              (continue out.0 (λ c. after_ownership storage lib q m new temp c.status) out.1).0
              (view w.storage)
              (view
                (continue out.0
                  (λ c. after_ownership storage lib q m new temp c.status)
                  out.1).1.storage)
      go (none, w') e f = unchanged e
      go (some c, w') e f =
          subst
            (λ x.
              RunEffect lib q (after_ownership storage lib q m new temp c.status w').0 x
                (view (after_ownership storage lib q m new temp c.status w').1.storage))
            e (ownership-effect m new temp step c.status w' f)

  -- The write of the temporary manifest and what follows it.
  pub written-Ensures :
      (m new : Manifest) (temp : Text)
      → IsStep lib q new
      → temp ≢ manifest q.game_id
      → Ensures view (RunEffect lib q) (
          call
            (storage.write_file temp (to_json_bytes lib new) true)
            (after_manifest_write storage lib q m new temp))
  unfolding call after_manifest_write pure
  written-Ensures m new temp step apart = record {
    at = λ w. go w (storage.write_file temp (to_json_bytes lib new) true w.storage).0 refl;
  }
    where
      after : World S → World S
      after w = record w {
        storage = (storage.write_file temp (to_json_bytes lib new) true w.storage).1;
      }

      go :
          (w : World S) (r : Reply (Unit {0}))
          → (storage.write_file temp (to_json_bytes lib new) true w.storage).0 ≡ r
          → RunEffect lib q
              (after_manifest_write storage lib q m new temp r (after w)).0
              (view w.storage)
              (view (after_manifest_write storage lib q m new temp r (after w)).1.storage)
      go w (ok u) h =
          subst
            (λ x.
              RunEffect lib q (after_manifest_write storage lib q m new temp (ok tt) (after w)).0 x
                (view (after_manifest_write storage lib q m new temp (ok tt) (after w)).1.storage))
            (laws.file-write_ne temp (manifest q.game_id) (to_json_bytes lib new) true w.storage
              apart)
            (checked-effect m new temp step (after w)
              (laws.file-write temp (to_json_bytes lib new) true w.storage h))
      go w (err e) h =
          unfold stop_failed in
          subst
            (λ x.
              RunEffect lib q
                (pure {S = S}
                  (stop storage lib q (write_failure e) (some m)
                    (cleanup_for_result (write_failure e)))
                  (after w)).0
                x (view (after w).storage))
            (laws.file-write_ne temp (manifest q.game_id) (to_json_bytes lib new) true w.storage
              apart)
            ((stop-Ensures (write_failure e) (some m) (cleanup_for_result (write_failure e))
                (write_failure-ne e)).at
              (after w))
