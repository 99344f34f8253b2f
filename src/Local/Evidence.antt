-- ===== src/Local/Evidence.antt =====
-- local/handoff_evidence.py: the proof that one exact handoff completed. The outer option of an
-- attribution is the raise of the evidence's constructor.
pub mod Exact
pub mod Successor
pub mod Recovery
use civ4_turn_relay.Prelude.{
  ℕ, zero, suc, ◌+◌, ◌-◌, ◌==◌, ltb, leb, if◌then◌else◌, length, Bool, true, false, not, ◌&&◌,
  Option, none, some, Text, text_eq, contains,
}
use civ4_turn_relay.Domain.Libraries.{Libraries}
use civ4_turn_relay.Domain.Ids.{
  validate_game_id, validate_operation_id, validate_player_id, validate_sha256_hex,
}
use civ4_turn_relay.Domain.Manifest.{Manifest, AcceptedSave}
use civ4_turn_relay.Protocol.Classify.{is_value}
use civ4_turn_relay.Protocol.Handoff.Request.{
  HandoffOutcome, committed, idempotent_ack, HandoffRequest, HandoffResult,
}

pub record HandoffEvidence : Type 0 where
  pub outcome : HandoffOutcome
  pub game_id : Text
  pub operation_id : Text
  pub local_player_id : Text
  pub sha256 : Text
  pub size_bytes : ℕ
  pub source_protocol_sequence : ℕ
  pub result_protocol_sequence : ℕ

-- `outcome in {COMMITTED, IDEMPOTENT_ACK}`
unfoldable pub is_completed : HandoffOutcome → Bool
is_completed committed = true
is_completed idempotent_ack = true
is_completed _ = false

-- `HandoffEvidence.__post_init__` returns.
unfoldable pub evidence_valid : HandoffEvidence → Bool
evidence_valid e =
    is_completed e.outcome
    && validate_game_id e.game_id
    && validate_operation_id e.operation_id
    && validate_player_id e.local_player_id
    && validate_sha256_hex e.sha256
    && ltb 0 e.size_bytes
    && e.result_protocol_sequence == e.source_protocol_sequence + 1

-- One operation: whose it is, and what it sends.
pub record Operation : Type 0 where
  pub game_id : Text
  pub operation_id : Text
  pub local_player_id : Text
  pub sha256 : Text

abbrev pub is_save : Text → ℕ → Option AcceptedSave → Bool
is_save sha256 size_bytes none = false
is_save sha256 size_bytes (some a) = text_eq a.sha256 sha256 && a.size_bytes == size_bytes

-- `_manifest_proves_exact_handoff`
unfoldable pub manifest_proves_exact_handoff : Manifest → Operation → ℕ → ℕ → Bool
manifest_proves_exact_handoff m o size_bytes source =
    text_eq m.game_id o.game_id
    && is_save o.sha256 size_bytes m.accepted_save
    && m.protocol_sequence == source + 1
    && is_value m.last_sender_id o.local_player_id
    && is_value m.protocol.last_operation_id o.operation_id
    && contains m.accepted_save_hashes o.sha256

unfoldable pub evidence_of : HandoffOutcome → Operation → ℕ → ℕ → Manifest → HandoffEvidence
evidence_of outcome o size_bytes source m = record {
  outcome = outcome;
  game_id = o.game_id;
  operation_id = o.operation_id;
  local_player_id = o.local_player_id;
  sha256 = o.sha256;
  size_bytes = size_bytes;
  source_protocol_sequence = source;
  result_protocol_sequence = m.protocol_sequence;
}

-- `HandoffEvidence(…)`
unfoldable pub construct : HandoffEvidence → Option (Option HandoffEvidence)
construct e = if evidence_valid e then some (some e) else none

unfoldable pub attribute :
    HandoffOutcome → Operation → ℕ → ℕ → Manifest → Option (Option HandoffEvidence)
attribute outcome o size_bytes source m =
    if manifest_proves_exact_handoff m o size_bytes source
    then construct (evidence_of outcome o size_bytes source m)
    else some none

unfoldable pub operation_of : Libraries → HandoffRequest → Operation
operation_of lib q = record {
  game_id = q.game_id;
  operation_id = q.operation_id;
  local_player_id = q.local_player_id;
  sha256 = lib.sha256_hexdigest q.outgoing_bytes;
}

abbrev pub attribute_manifest :
    Libraries
    → HandoffRequest
    → HandoffResult
    → ℕ
    → Option Manifest
    → Option (Option HandoffEvidence)
attribute_manifest lib q r source none = some none
attribute_manifest lib q r source (some m) =
    if text_eq r.sha256 (lib.sha256_hexdigest q.outgoing_bytes)
    then attribute r.outcome (operation_of lib q) (length q.outgoing_bytes) source m
    else some none

-- `attribute_handoff_result`
unfoldable pub attribute_handoff_result :
    Libraries → HandoffRequest → HandoffResult → ℕ → Option (Option HandoffEvidence)
attribute_handoff_result lib q r source =
    if is_completed r.outcome then attribute_manifest lib q r source r.manifest else some none

-- Who wrote the record of the handoff in progress.
pub record JournalOwner : Type 0 where
  pub client_id : Text
  pub player_id : Text
  pub game_id : Text

abbrev pub same_digest : Text → Option AcceptedSave → Bool
same_digest sha256 none = false
same_digest sha256 (some a) = text_eq a.sha256 sha256

-- The sequence that the handoff started from, where the record has none: none if it cannot be told.
unfoldable pub recovered_source : Manifest → Operation → Option ℕ → Option ℕ
recovered_source m o (some source) = some source
recovered_source m o none =
    if is_value m.protocol.last_operation_id o.operation_id
      && leb 1 m.protocol_sequence
      && same_digest o.sha256 m.accepted_save
    then some (m.protocol_sequence - 1)
    else none

abbrev pub size_of : Option AcceptedSave → Option ℕ
size_of none = none
size_of (some a) = some a.size_bytes

-- The size, recovered from the accepted save where it is not known.
unfoldable pub recovered_size : Manifest → Option ℕ → Option ℕ
recovered_size m none = size_of m.accepted_save
recovered_size m (some size_bytes) =
    if size_bytes == 0 then size_of m.accepted_save else some size_bytes

abbrev pub attribute_recovered :
    Operation → Manifest → Option ℕ → Option ℕ → Option (Option HandoffEvidence)
attribute_recovered o m (some source) (some size_bytes) =
    attribute idempotent_ack o size_bytes source m
attribute_recovered o m _ _ = some none

-- `attribute_journal_against_manifest`
unfoldable pub attribute_journal_against_manifest :
    Manifest
    → Operation
    → Text
    → Option ℕ
    → Option ℕ
    → JournalOwner
    → Option (Option HandoffEvidence)
attribute_journal_against_manifest m o client_id size_bytes source journal =
    if text_eq journal.game_id o.game_id
      && text_eq journal.player_id o.local_player_id
      && text_eq journal.client_id client_id
    then attribute_recovered o m (recovered_source m o source) (recovered_size m size_bytes)
    else some none
