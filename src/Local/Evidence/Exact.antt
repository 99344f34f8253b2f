-- ===== src/Local/Evidence/Exact.antt =====
-- local/handoff_evidence.py: evidence is given for the exact operation only.
use civ4_turn_relay.Prelude.{
  ap, ◌∙◌, ℕ, ◌+◌, ◌≡◌, refl, true, Option, none, some, Text, text_eq, text_eq_iff, contains, arith,
  length,
}
use civ4_turn_relay.Domain.Libraries.{Libraries}
use civ4_turn_relay.Domain.Manifest.{Manifest, AcceptedSave}
use civ4_turn_relay.Protocol.Classify.{is_value}
use civ4_turn_relay.Protocol.Handoff.Request.{HandoffOutcome, HandoffRequest, HandoffResult}
use civ4_turn_relay.Local.Evidence.{
  HandoffEvidence, Operation, evidence_valid, is_save, manifest_proves_exact_handoff, evidence_of,
  construct, attribute, attribute_manifest, operation_of, attribute_handoff_result,
}

-- The manifest is of the request's game, accepts the exact save that the request sends, names its player
-- as the sender and its operation as the last one, and is one sequence after `source`; and the evidence
-- says that, member by member.
pub record IsProof (lib : Libraries) (q : HandoffRequest) (outcome : HandoffOutcome) (source : ℕ)
    (m : Manifest) (e : HandoffEvidence) : Type 0 where
  pub game : m.game_id ≡ q.game_id
  pub save : AcceptedSave
  pub accepted : m.accepted_save ≡ some save
  pub digest : save.sha256 ≡ lib.sha256_hexdigest q.outgoing_bytes
  pub size : save.size_bytes ≡ length q.outgoing_bytes
  pub sequence : m.protocol_sequence ≡ source + 1
  pub sender : m.last_sender_id ≡ some q.local_player_id
  pub operation : m.protocol.last_operation_id ≡ some q.operation_id
  pub listed : contains m.accepted_save_hashes (lib.sha256_hexdigest q.outgoing_bytes) ≡ true
  pub says_outcome : e.outcome ≡ outcome
  pub says_game : e.game_id ≡ q.game_id
  pub says_operation : e.operation_id ≡ q.operation_id
  pub says_player : e.local_player_id ≡ q.local_player_id
  pub says_digest : e.sha256 ≡ lib.sha256_hexdigest q.outgoing_bytes
  pub says_size : e.size_bytes ≡ length q.outgoing_bytes
  pub says_source : e.source_protocol_sequence ≡ source
  pub says_result : e.result_protocol_sequence ≡ source + 1
  pub valid : evidence_valid e ≡ true

is_value-lem : (o : Option Text) (t : Text) → is_value o t ≡ true → o ≡ some t
unfolding is_value
is_value-lem none t h = ground arith
is_value-lem (some u) t h = ground (arith, text_eq_iff t u)

attribute-parts :
    (outcome : HandoffOutcome) (o : Operation) (size source : ℕ) (m : Manifest)
    (e : HandoffEvidence)
    → attribute outcome o size source m ≡ some (some e)
    → (manifest_proves_exact_handoff m o size source ≡ true)
      × (e ≡ evidence_of outcome o size source m)
      × (evidence_valid e ≡ true)
unfolding attribute construct
attribute-parts outcome o size source m e h = ground arith

saved :
    (sha256 : Text) (size : ℕ) (a : Option AcceptedSave)
    → is_save sha256 size a ≡ true
    → (save : AcceptedSave) × (a ≡ some save) × (save.sha256 ≡ sha256) × (save.size_bytes ≡ size)
saved sha256 size none h = absurd (ground arith)
saved sha256 size (some a) h = (a, refl, ground (arith, text_eq_iff a.sha256 sha256), ground arith)

proves-parts :
    (m : Manifest) (o : Operation) (size source : ℕ)
    → manifest_proves_exact_handoff m o size source ≡ true
    → (text_eq m.game_id o.game_id ≡ true)
      × (is_save o.sha256 size m.accepted_save ≡ true)
      × (m.protocol_sequence ≡ source + 1)
      × (is_value m.last_sender_id o.local_player_id ≡ true)
      × (is_value m.protocol.last_operation_id o.operation_id ≡ true)
      × (contains m.accepted_save_hashes o.sha256 ≡ true)
unfolding manifest_proves_exact_handoff
proves-parts m o size source h = ground arith

attribute-IsProof :
    (lib : Libraries) (q : HandoffRequest) (outcome : HandoffOutcome) (source : ℕ) (m : Manifest)
    (e : HandoffEvidence)
    → attribute outcome (operation_of lib q) (length q.outgoing_bytes) source m ≡ some (some e)
    → IsProof lib q outcome source m e
unfolding evidence_of operation_of
attribute-IsProof lib q outcome source m e h =
    let o = operation_of lib q in
    let (proves, e_is, valid) = attribute-parts outcome o (length q.outgoing_bytes) source m e h in
    let (game, save, sequence, sender, operation, listed) =
      proves-parts m o (length q.outgoing_bytes) source proves in
    let (a, accepted, digest, size) =
      saved (lib.sha256_hexdigest q.outgoing_bytes) (length q.outgoing_bytes) m.accepted_save
        save in
    record {
      game = (text_eq_iff _ _).0 game;
      save = a;
      accepted = accepted;
      digest = digest;
      size = size;
      sequence = sequence;
      sender = is_value-lem m.last_sender_id q.local_player_id sender;
      operation = is_value-lem m.protocol.last_operation_id q.operation_id operation;
      listed = listed;
      says_outcome = ap (λ (t : HandoffEvidence). t.outcome) e_is;
      says_game = ap (λ (t : HandoffEvidence). t.game_id) e_is;
      says_operation = ap (λ (t : HandoffEvidence). t.operation_id) e_is;
      says_player = ap (λ (t : HandoffEvidence). t.local_player_id) e_is;
      says_digest = ap (λ (t : HandoffEvidence). t.sha256) e_is;
      says_size = ap (λ (t : HandoffEvidence). t.size_bytes) e_is;
      says_source = ap (λ (t : HandoffEvidence). t.source_protocol_sequence) e_is;
      says_result = ap (λ (t : HandoffEvidence). t.result_protocol_sequence) e_is ∙ sequence;
      valid = valid;
    }

attribute_manifest-IsProof :
    (lib : Libraries) (q : HandoffRequest) (r : HandoffResult) (source : ℕ) (om : Option Manifest)
    (e : HandoffEvidence)
    → attribute_manifest lib q r source om ≡ some (some e)
    → (m : Manifest) × (om ≡ some m)
      × (r.sha256 ≡ lib.sha256_hexdigest q.outgoing_bytes)
      × (IsProof lib q r.outcome source m e)
attribute_manifest-IsProof lib q r source none e h = absurd (ground arith)
attribute_manifest-IsProof lib q r source (some m) e h = (
  m,
  refl,
  ground (arith, text_eq_iff r.sha256 (lib.sha256_hexdigest q.outgoing_bytes)),
  attribute-IsProof lib q r.outcome source m e (ground arith),
)

-- Evidence that `attribute_handoff_result` gives is valid and stands on a result of the request's digest
-- and on its manifest, which is of the request's game, accepts its exact save (digest and size) last,
-- names its player as the sender and its operation as the last one, and is one sequence after the source.
-- The evidence names the result's outcome, and that game, operation, player, digest, size and source.
pub attribute_handoff_result-IsProof :
    (lib : Libraries) (q : HandoffRequest) (r : HandoffResult) (source : ℕ) (e : HandoffEvidence)
    → attribute_handoff_result lib q r source ≡ some (some e)
    → (m : Manifest) × (r.manifest ≡ some m)
      × (r.sha256 ≡ lib.sha256_hexdigest q.outgoing_bytes)
      × (IsProof lib q r.outcome source m e)
unfolding attribute_handoff_result
attribute_handoff_result-IsProof lib q r source e h =
    attribute_manifest-IsProof lib q r source r.manifest e (ground arith)
