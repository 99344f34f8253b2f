-- ===== src/Local/Evidence/Successor.antt =====
-- local/handoff_evidence.py with protocol/handoff.py: the manifest that a handoff wrote proves it.
use civ4_turn_relay.Prelude.{
  ltb, ◌≡◌, refl, true, none, some, List, [], ◌∷◌, ◌++◌, Text, text_eq_self, contains, arith,
}
use civ4_turn_relay.Domain.Libraries.{Libraries}
use civ4_turn_relay.Domain.Ids.{validate_sha256_hex}
use civ4_turn_relay.Domain.Manifest.{Manifest, AcceptedSave, manifest_valid, accepted_save_valid}
use civ4_turn_relay.Protocol.Classify.{is_value}
use civ4_turn_relay.Protocol.Handoff.Request.{HandoffRequest, request_valid, idempotent_ack}
use civ4_turn_relay.Protocol.Handoff.Plan.{digest}
use civ4_turn_relay.Protocol.Handoff.Effect.{IsSuccessor}
use civ4_turn_relay.Local.Evidence.{
  HandoffEvidence, evidence_valid, is_completed, manifest_proves_exact_handoff, evidence_of,
  construct, attribute, operation_of, recovered_source, recovered_size, size_of,
}

contains-last : (hs : List Text) (d : Text) → contains (hs ++ (d ∷ [])) d ≡ true
unfolding contains
contains-last [] d = ground (arith, text_eq_self d)
contains-last (h ∷ hs) d = ground (arith, contains-last hs d)

is_value-some : (t : Text) → is_value (some t) t ≡ true
unfolding is_value
is_value-some t = text_eq_self t

save-valid :
    (lib : Libraries) (m : Manifest) (a : AcceptedSave)
    → manifest_valid lib m ≡ true
    → m.accepted_save ≡ some a
    → (validate_sha256_hex a.sha256 ≡ true) × (ltb 0 a.size_bytes ≡ true)
unfolding manifest_valid accepted_save_valid
save-valid lib m a v e = ground arith

module _ (lib : Libraries) (q : HandoffRequest) (m new : Manifest) (s : IsSuccessor lib q m new)
    (valid : request_valid lib q ≡ true) where
  proves :
      manifest_proves_exact_handoff new (operation_of lib q) s.save.size_bytes m.protocol_sequence
      ≡ true
  unfolding manifest_proves_exact_handoff operation_of digest is_value
  proves =
      rw (s.game, s.accepted, s.sequence, s.sender, s.operation, s.hashes, s.digest_of_save)
        (ground (
          arith,
          text_eq_self q.game_id,
          text_eq_self q.local_player_id,
          text_eq_self q.operation_id,
          text_eq_self (lib.sha256_hexdigest q.outgoing_bytes),
          contains-last m.accepted_save_hashes (lib.sha256_hexdigest q.outgoing_bytes),
        ))

  unfoldable pub evidence : HandoffEvidence
  evidence =
      evidence_of idempotent_ack (operation_of lib q) s.save.size_bytes m.protocol_sequence new

  evidence-valid : evidence_valid evidence ≡ true
  unfolding evidence_valid evidence evidence_of operation_of is_completed request_valid digest
  evidence-valid =
      ground (arith, s.digest_of_save, s.sequence, save-valid lib new s.save s.valid s.accepted)

  pub source_lem : recovered_source new (operation_of lib q) none ≡ some m.protocol_sequence
  unfolding recovered_source operation_of is_value digest
  source_lem =
      rw (s.accepted, s.operation, s.sequence, s.digest_of_save)
        (ground (
          arith,
          text_eq_self q.operation_id,
          text_eq_self (lib.sha256_hexdigest q.outgoing_bytes),
        ))

  pub size_lem : recovered_size new (size_of new.accepted_save) ≡ some s.save.size_bytes
  unfolding recovered_size
  size_lem = rw s.accepted (ground arith)

  pub attributed :
      attribute idempotent_ack (operation_of lib q) s.save.size_bytes m.protocol_sequence new
      ≡ some (some evidence)
  unfolding attribute construct evidence
  attributed = rw proves (rw evidence-valid refl)
