-- ===== src/Local/Records/Json.antt =====
-- local/records.py: the JSON form of the records of a match.
use civ4_turn_relay.Prelude.{ℕ, ◌≡◌, refl, true, Option, none, some, List, [], ◌∷◌}
use civ4_turn_relay.Domain.Json.{object, string, from_list}
use civ4_turn_relay.Domain.Libraries.{Libraries, JsonReadsBack}
use civ4_turn_relay.Domain.Config.{OperationalState}
use civ4_turn_relay.Domain.Serialization.{is_strict, strict_items, has_key}
use civ4_turn_relay.Domain.Manifest.RoundTrip.{parse_read, strict_hashes, strict_text}
use civ4_turn_relay.Protocol.Journal.{InProgressHandoff}
use civ4_turn_relay.Local.Records.Types.{
  MatchLocalRecords, BaselineEntry, PlaySessionBaseline, StabilityObservation,
  PostCommitCloseRecord, VerifiedRemoteRecord, DownloadedSaveRecord, OutgoingCandidateRecord,
  LaunchAttemptRecord, ProcessAssociationRecord, records_valid,
}
use civ4_turn_relay.Local.Records.Mappings.{
  nullable, state_name, in_progress_to_mapping, entry_to_mapping, entry_values, baseline_to_mapping,
  observation_to_mapping, observation_values, close_to_mapping, verified_to_mapping,
  downloaded_to_mapping, outgoing_to_mapping, launch_to_mapping, association_to_mapping,
  optional_integer, to_mapping, to_json_bytes,
}
use civ4_turn_relay.Local.Records.Whole.{from_json_bytes}
use civ4_turn_relay.Local.Records.RoundTrip.{from_mapping-to_mapping}

strict_entries : (es : List BaselineEntry) → strict_items (from_list (entry_values es)) ≡ true
unfolding is_strict from_list entry_values entry_to_mapping has_key
strict_entries [] = refl
strict_entries (e ∷ es) = strict_entries es

strict_observations :
    (os : List StabilityObservation) → strict_items (from_list (observation_values os)) ≡ true
unfolding is_strict from_list observation_values observation_to_mapping has_key
strict_observations [] = refl
strict_observations (o ∷ os) = rw (strict_text o.session_accepted_sha256) (strict_observations os)

strict_close :
    (o : Option PostCommitCloseRecord)
    → is_strict (nullable (λ c. object (close_to_mapping c)) o) ≡ true
unfolding is_strict close_to_mapping has_key
strict_close none = refl
strict_close (some c) = refl

strict_verified :
    (o : Option VerifiedRemoteRecord)
    → is_strict (nullable (λ v. object (verified_to_mapping v)) o) ≡ true
unfolding is_strict verified_to_mapping has_key
strict_verified none = refl
strict_verified (some v) = rw (strict_text v.accepted_sha256) refl

strict_downloaded :
    (o : Option DownloadedSaveRecord)
    → is_strict (nullable (λ d. object (downloaded_to_mapping d)) o) ≡ true
unfolding is_strict downloaded_to_mapping has_key
strict_downloaded none = refl
strict_downloaded (some d) = refl

strict_outgoing :
    (o : Option OutgoingCandidateRecord)
    → is_strict (nullable (λ c. object (outgoing_to_mapping c)) o) ≡ true
unfolding is_strict outgoing_to_mapping has_key
strict_outgoing none = refl
strict_outgoing (some c) = refl

strict_launch :
    (o : Option LaunchAttemptRecord)
    → is_strict (nullable (λ a. object (launch_to_mapping a)) o) ≡ true
unfolding is_strict launch_to_mapping has_key
strict_launch none = refl
strict_launch (some a) = rw (strict_text a.accepted_sha256) refl

strict_association :
    (o : Option ProcessAssociationRecord)
    → is_strict (nullable (λ a. object (association_to_mapping a)) o) ≡ true
unfolding is_strict association_to_mapping has_key
strict_association none = refl
strict_association (some a) = rw (strict_text a.accepted_sha256) refl

strict_integer : (o : Option ℕ) → is_strict (optional_integer o) ≡ true
unfolding is_strict
strict_integer none = refl
strict_integer (some n) = refl

strict_progress :
    (o : Option InProgressHandoff)
    → is_strict (nullable (λ p. object (in_progress_to_mapping p)) o) ≡ true
unfolding is_strict in_progress_to_mapping has_key
strict_progress none = refl
strict_progress (some p) = rw (strict_integer p.protocol_sequence, strict_text p.step_reached) refl

strict_baseline :
    (o : Option PlaySessionBaseline)
    → is_strict (nullable (λ b. object (baseline_to_mapping b)) o) ≡ true
unfolding is_strict baseline_to_mapping has_key
strict_baseline none = refl
strict_baseline (some b) = rw (strict_text b.accepted_sha256, strict_entries b.entries) refl

strict_state :
    (o : Option OperationalState) → is_strict (nullable (λ s. string (state_name s)) o) ≡ true
unfolding is_strict
strict_state none = refl
strict_state (some s) = refl

-- The mapping has no key twice.
strict_mapping : (r : MatchLocalRecords) → is_strict (object (to_mapping r)) ≡ true
unfolding is_strict to_mapping has_key
strict_mapping r =
    rw
      (
        strict_hashes r.attempted_handoff_hashes,
        strict_downloaded r.downloaded_save,
        strict_hashes r.historically_accepted_hashes,
        strict_progress r.in_progress_handoff,
        strict_text r.last_error_class,
        strict_state r.last_operational_state,
        strict_text r.last_transition_reason,
        strict_launch r.launch_attempt,
        strict_outgoing r.outgoing_candidate,
        strict_baseline r.play_session_baseline,
        strict_close r.pending_post_commit_close,
        strict_association r.process_association,
        strict_hashes r.processed_outgoing_hashes,
        strict_observations r.stability_observations,
        strict_verified r.verified_remote,
      )
      refl

-- For libraries where `json.loads` reads back what `json.dumps` wrote, the local records of a match
-- that their constructors accept are read back unchanged from their JSON bytes, with the observations,
-- the handoff in progress and the process identities that they embed.
pub records-from_json_bytes :
    (lib : Libraries) (r : MatchLocalRecords)
    → JsonReadsBack lib
    → records_valid lib r ≡ true
    → from_json_bytes lib (to_json_bytes lib r) ≡ some r
unfolding from_json_bytes to_json_bytes
records-from_json_bytes lib r back h =
    rw (parse_read lib _ (to_mapping r) (back (object (to_mapping r))) (strict_mapping r))
      (from_mapping-to_mapping lib r h)
