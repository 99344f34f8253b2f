-- ===== src/Protocol/Handoff/Effect/Run.antt =====
-- protocol/handoff.py: the effect of `_run_owned_handoff` on the manifest.
use civ4_turn_relay.Prelude.{
  ◌≡◌, refl, ◌∙◌, ap, false, Option, none, some, Text, Bytes, arith, contains, text_eq_iff,
}
use civ4_turn_relay.Domain.Libraries.{Libraries}
use civ4_turn_relay.Domain.Manifest.{Manifest}
use civ4_turn_relay.Domain.Manifest.Codec.{from_json_bytes}
use civ4_turn_relay.Storage.Port.{Storage}
use civ4_turn_relay.Storage.Laws.{StorageLaws}
use civ4_turn_relay.Protocol.Action
use civ4_turn_relay.Protocol.Action.{World, Action, pure}
use civ4_turn_relay.Protocol.Action.Keeps.{Keeps-write_journal, Keeps-read_journal}
use civ4_turn_relay.Protocol.Action.Ensures.{
  Ensures, Ensures-bind, Ensures-bind_such, Ensures-lift, Ensures-if,
}
use civ4_turn_relay.Protocol.Classify
use civ4_turn_relay.Protocol.Classify.{
  HashClassification, classify, classify_candidate_hash, is_value, PriorAttemptEvidence,
}
use civ4_turn_relay.Protocol.ManifestAccess
use civ4_turn_relay.Protocol.ManifestAccess.{
  ManifestReadOutcome, ManifestReadResult, read_result, parse_manifest, read_authoritative_manifest,
}
use civ4_turn_relay.Protocol.Lock.Observes.{read_manifest-Keeps}
use civ4_turn_relay.Protocol.Handoff.Request.{HandoffRequest}
use civ4_turn_relay.Protocol.Handoff.Plan.{digest}
use civ4_turn_relay.Protocol.Handoff.Owned.{
  Run, after_classification, classify_outgoing, after_ok, after_outcome, after_manifest_read,
  run_owned_handoff,
}
use civ4_turn_relay.Protocol.Handoff.Effect.{unchanged}
use civ4_turn_relay.Protocol.Handoff.Effect.Replace.{RunEffect, on_read, on_list}
use civ4_turn_relay.Protocol.Handoff.Effect.Owned.{view, stop-Ensures}
use civ4_turn_relay.Protocol.Handoff.Effect.Step.{classified-fresh}
use civ4_turn_relay.Protocol.Handoff.Effect.Upload.{upload-Ensures}

module _ {S : Type 0} (storage : Storage S) (laws : StorageLaws storage) (lib : Libraries)
    (q : HandoffRequest) where
  abbrev seen : S → Option Bytes
  seen = view storage laws lib q

  -- A run of this section.
  abbrev HasEffect : Action S Run → Type 0
  HasEffect = Ensures seen (RunEffect lib q)

  -- The bytes hold the manifest, which is of the game.
  abbrev Parsed : Manifest → Bytes → Type 0
  Parsed m raw = (from_json_bytes lib raw ≡ some m) × (m.game_id ≡ q.game_id)

  module _ (m : Manifest) (raw ext : Bytes) (parsed : Parsed m raw) where
    after_classification-Ensures :
        (c : HashClassification)
        → (c ≡ Classify.new_handoff_candidate
            → contains m.accepted_save_hashes (digest lib q) ≡ false)
        → HasEffect (after_classification storage lib q m ext raw c)
    unfolding after_classification
    after_classification-Ensures Classify.reject_incoming f =
        stop-Ensures storage laws lib q _ _ _ (λ e. cc)
    after_classification-Ensures Classify.idempotent_ack f =
        Ensures-bind _ _ (Keeps-write_journal seen _) (λ x. unchanged refl)
          (λ _. stop-Ensures storage laws lib q _ _ _ (λ e. cc))
    after_classification-Ensures Classify.journal_only_ack f =
        stop-Ensures storage laws lib q _ _ _ (λ e. cc)
    after_classification-Ensures Classify.stale_replay f =
        stop-Ensures storage laws lib q _ _ _ (λ e. cc)
    after_classification-Ensures Classify.new_handoff_candidate f =
        Ensures-if _ _ _
          (λ e.
            upload-Ensures storage laws lib q m raw
              (record {
                parsed = parsed.0;
                same_game = parsed.1;
                turn = (text_eq_iff m.current_player_id q.local_player_id).0 e;
                fresh = f refl;
              })
              ext)
          (λ _. stop-Ensures storage laws lib q _ _ _ (λ e. cc))

    classify_outgoing-Ensures : HasEffect (classify_outgoing storage lib q m ext raw)
    unfolding classify_outgoing
    classify_outgoing-Ensures =
        Ensures-bind _ _ (Keeps-read_journal _) (λ x. unchanged refl)
          (λ evidence.
            Ensures-lift _ _ (λ x. unchanged refl)
              (λ c h.
                after_classification-Ensures c
                  (λ e. classified-fresh _ _ _ _ _ evidence (h ∙ ap some e))))

  -- What a read says of the manifest, it has parsed.
  abbrev IsParsed : ManifestReadResult → Type 0
  IsParsed read =
      (m : Manifest) (raw : Bytes)
      → read.manifest ≡ some m
      → read.raw_bytes ≡ some raw
      → Parsed m raw

  after_ok-Ensures :
      (ext : Text) (om : Option Manifest) (oraw : Option Bytes)
      → ((m : Manifest) (raw : Bytes) → om ≡ some m → oraw ≡ some raw → Parsed m raw)
      → HasEffect (after_ok storage lib q ext om oraw)
  unfolding after_ok
  after_ok-Ensures ext (some m) (some raw) h =
      classify_outgoing-Ensures m raw ext (h m raw refl refl)
  after_ok-Ensures ext (some m) none h = stop-Ensures storage laws lib q _ _ _ (λ e. cc)
  after_ok-Ensures ext none _ h = stop-Ensures storage laws lib q _ _ _ (λ e. cc)

  after_outcome-Ensures :
      (ext : Text) (om : Option Manifest) (oraw : Option Bytes) (o : ManifestReadOutcome)
      → ((m : Manifest) (raw : Bytes) → om ≡ some m → oraw ≡ some raw → Parsed m raw)
      → HasEffect (after_outcome storage lib q ext om oraw o)
  unfolding after_outcome
  after_outcome-Ensures ext om oraw ManifestAccess.missing h =
      stop-Ensures storage laws lib q _ _ _ (λ e. cc)
  after_outcome-Ensures ext om oraw ManifestAccess.invalid h =
      stop-Ensures storage laws lib q _ _ _ (λ e. cc)
  after_outcome-Ensures ext om oraw ManifestAccess.game_id_mismatch h =
      stop-Ensures storage laws lib q _ _ _ (λ e. cc)
  after_outcome-Ensures ext om oraw ManifestAccess.transport_failure h =
      stop-Ensures storage laws lib q _ _ _ (λ e. cc)
  after_outcome-Ensures ext om oraw ManifestAccess.ok h = after_ok-Ensures ext om oraw h

  read-IsParsed :
      (w : World S) (read : ManifestReadResult)
      → (read_authoritative_manifest storage lib q.game_id w).0 ≡ some read
      → IsParsed read
  unfolding read_authoritative_manifest read_result parse_manifest Action.◌>>=◌ Action.ensure
      Action.call Action.pure
  read-IsParsed w read h m raw hm hr =
      (ground arith, ground (arith, text_eq_iff m.game_id q.game_id))

  pub run-Ensures : (ext : Text) → HasEffect (run_owned_handoff storage lib q ext)
  unfolding run_owned_handoff after_manifest_read
  run-Ensures ext =
      Ensures-bind_such IsParsed _ _
        (read_manifest-Keeps storage lib seen (on_read storage laws lib q)
          (on_list storage laws lib q) q.game_id)
        read-IsParsed (λ x. unchanged refl)
        (λ read h. after_outcome-Ensures ext read.manifest read.raw_bytes read.outcome h)
