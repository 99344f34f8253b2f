-- ===== src/Local/Records/MemberRoundTrip.antt =====
-- local/records.py: each member of the records reads back what it wrote.
use civ4_turn_relay.Prelude.{◌≡◌, refl, true, some, List, [], ◌∷◌, codes, arith}
use civ4_turn_relay.Domain.Libraries.{Libraries}
use civ4_turn_relay.Domain.Paths.{all_of}
use civ4_turn_relay.Domain.Serialization.{
  check_exact_keys, check_keys, has_key, get, get_string, get_optional_string, get_integer,
  get_boolean, get_array,
}
use civ4_turn_relay.Domain.Manifest.RoundTrip.{to_list-from_list}
use civ4_turn_relay.Protocol.Journal.{InProgressHandoff, in_progress_valid}
use civ4_turn_relay.Local.Records.Types.{
  BaselineEntry, PlaySessionBaseline, StabilityObservation, PostCommitCloseRecord,
  VerifiedRemoteRecord, DownloadedSaveRecord, OutgoingCandidateRecord, LaunchAttemptRecord,
  ProcessAssociationRecord, baseline_entry_valid, baseline_post_init, baseline_valid,
  observation_valid, close_valid, verified_remote_valid, downloaded_save_valid, outgoing_valid,
  launch_attempt_valid, association_valid,
}
use civ4_turn_relay.Local.Records.Mappings.{
  in_progress_to_mapping, entry_to_mapping, entry_values, baseline_to_mapping,
  observation_to_mapping, observation_values, close_to_mapping, verified_to_mapping,
  downloaded_to_mapping, outgoing_to_mapping, launch_to_mapping, association_to_mapping,
}
use civ4_turn_relay.Local.Records.Reading.{
  in_progress_from_mapping, entry_from_mapping, entries_from, read_entries, baseline_keys,
  baseline_from_mapping, seconds_of, observation_from_mapping, observations_from,
}
use civ4_turn_relay.Local.Records.Members.{
  close_from_mapping, verified_from_mapping, downloaded_from_mapping, outgoing_from_mapping,
  launch_from_mapping, association_from_mapping,
}

module _ (lib : Libraries) where
  pub entry_lem :
      (r : BaselineEntry)
      → baseline_entry_valid lib r ≡ true
      → entry_from_mapping lib (entry_to_mapping r) ≡ some r
  unfolding entry_from_mapping entry_to_mapping check_exact_keys get get_string get_optional_string
      get_integer get_boolean
  entry_lem r h = ground arith

  pub observation_lem :
      (r : StabilityObservation)
      → observation_valid lib r ≡ true
      → observation_from_mapping lib (observation_to_mapping r) ≡ some r
  unfolding observation_from_mapping observation_to_mapping check_exact_keys get get_string
      get_optional_string get_integer get_boolean seconds_of
  observation_lem r h = ground arith

  pub close_lem :
      (r : PostCommitCloseRecord)
      → close_valid lib r ≡ true
      → close_from_mapping lib (close_to_mapping r) ≡ some r
  unfolding close_from_mapping close_to_mapping check_exact_keys get get_string get_optional_string
      get_integer get_boolean
  close_lem r h = ground arith

  pub verified_lem :
      (r : VerifiedRemoteRecord)
      → verified_remote_valid r ≡ true
      → verified_from_mapping (verified_to_mapping r) ≡ some r
  unfolding verified_from_mapping verified_to_mapping check_exact_keys get get_string
      get_optional_string get_integer get_boolean
  verified_lem r h = ground arith

  pub downloaded_lem :
      (r : DownloadedSaveRecord)
      → downloaded_save_valid lib r ≡ true
      → downloaded_from_mapping lib (downloaded_to_mapping r) ≡ some r
  unfolding downloaded_from_mapping downloaded_to_mapping check_exact_keys get get_string
      get_optional_string get_integer get_boolean
  downloaded_lem r h = ground arith

  pub outgoing_lem :
      (r : OutgoingCandidateRecord)
      → outgoing_valid lib r ≡ true
      → outgoing_from_mapping lib (outgoing_to_mapping r) ≡ some r
  unfolding outgoing_from_mapping outgoing_to_mapping check_exact_keys get get_string
      get_optional_string get_integer get_boolean
  outgoing_lem r h = ground arith

  pub launch_lem :
      (r : LaunchAttemptRecord)
      → launch_attempt_valid lib r ≡ true
      → launch_from_mapping lib (launch_to_mapping r) ≡ some r
  unfolding launch_from_mapping launch_to_mapping check_exact_keys get get_string
      get_optional_string get_integer get_boolean
  launch_lem r h = ground arith

  pub association_lem :
      (r : ProcessAssociationRecord)
      → association_valid lib r ≡ true
      → association_from_mapping lib (association_to_mapping r) ≡ some r
  unfolding association_from_mapping association_to_mapping check_exact_keys get get_string
      get_optional_string get_integer get_boolean
  association_lem r h = ground arith

  pub in_progress_lem :
      (r : InProgressHandoff)
      → in_progress_valid r ≡ true
      → in_progress_from_mapping (in_progress_to_mapping r) ≡ some r
  unfolding in_progress_from_mapping in_progress_to_mapping check_keys has_key get get_string
      get_optional_string
  in_progress_lem r h = ground arith

  entries_lem :
      (es : List BaselineEntry)
      → all_of (baseline_entry_valid lib) es ≡ true
      → entries_from lib (entry_values es) ≡ some es
  unfolding entries_from entry_values all_of
  entries_lem [] h = refl
  entries_lem (e ∷ es) h = ground (arith, entry_lem e, entries_lem es)

  pub observations_lem :
      (os : List StabilityObservation)
      → all_of (observation_valid lib) os ≡ true
      → observations_from lib (observation_values os) ≡ some os
  unfolding observations_from observation_values all_of
  observations_lem [] h = refl
  observations_lem (o ∷ os) h = ground (arith, observation_lem o, observations_lem os)

  read_entries_lem :
      (b : PlaySessionBaseline)
      → all_of (baseline_entry_valid lib) b.entries ≡ true
      → read_entries lib (baseline_to_mapping b) ≡ some b.entries
  unfolding read_entries baseline_to_mapping get_array
  read_entries_lem b h = rw (to_list-from_list (entry_values b.entries)) (entries_lem b.entries h)

  entries_valid :
      (b : PlaySessionBaseline)
      → baseline_valid lib b ≡ true
      → all_of (baseline_entry_valid lib) b.entries ≡ true
  unfolding baseline_valid
  entries_valid b h = ground arith

  post_valid :
      (b : PlaySessionBaseline) → baseline_valid lib b ≡ true → baseline_post_init lib b ≡ true
  unfolding baseline_valid
  post_valid b h = ground arith

  baseline_keys_lem :
      (b : PlaySessionBaseline) → check_exact_keys (baseline_to_mapping b) baseline_keys ≡ true
  unfolding check_exact_keys baseline_to_mapping
  baseline_keys_lem b = refl

  accepted_lem :
      (b : PlaySessionBaseline)
      → get_optional_string (baseline_to_mapping b) (codes "accepted_sha256")
        ≡ some b.accepted_sha256
  unfolding get_optional_string baseline_to_mapping
  accepted_lem b = ground arith

  pub baseline_lem :
      (b : PlaySessionBaseline)
      → baseline_valid lib b ≡ true
      → baseline_from_mapping lib (baseline_to_mapping b) ≡ some b
  unfolding baseline_from_mapping baseline_valid
  baseline_lem b h =
      rw (baseline_keys_lem b, read_entries_lem b (entries_valid b h), accepted_lem b)
        (unfold baseline_to_mapping get_string get_integer in rw (post_valid b h) refl)
