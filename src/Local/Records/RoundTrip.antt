-- ===== src/Local/Records/RoundTrip.antt =====
-- local/records.py: the records of a match read back what they wrote.
use civ4_turn_relay.Prelude.{◌≡◌, refl, true, some, codes, arith}
use civ4_turn_relay.Domain.Libraries.{Libraries}
use civ4_turn_relay.Domain.Paths.{all_of}
use civ4_turn_relay.Domain.Serialization.{
  check_keys, has_key, get, get_string, get_integer, get_array,
}
use civ4_turn_relay.Domain.Manifest.{optional}
use civ4_turn_relay.Domain.Manifest.RoundTrip.{to_list-from_list}
use civ4_turn_relay.Protocol.Journal.{in_progress_valid}
use civ4_turn_relay.Local.Records.Types.{
  verified_remote_valid, downloaded_save_valid, baseline_valid, outgoing_valid, observation_valid,
  launch_attempt_valid, association_valid, close_valid, MatchLocalRecords, records_valid,
  records_post_init, digests_valid,
}
use civ4_turn_relay.Local.Records.Mappings.{
  verified_to_mapping, downloaded_to_mapping, baseline_to_mapping, outgoing_to_mapping,
  in_progress_to_mapping, launch_to_mapping, association_to_mapping, close_to_mapping,
  observation_values, to_mapping,
}
use civ4_turn_relay.Local.Records.Reading.{baseline_from_mapping, in_progress_from_mapping}
use civ4_turn_relay.Local.Records.Members.{
  verified_from_mapping, downloaded_from_mapping, outgoing_from_mapping, launch_from_mapping,
  association_from_mapping, close_from_mapping,
}
use civ4_turn_relay.Local.Records.MemberLaws.{
  member_lem, identity_lem, text_lem, digests_lem, state_lem,
}
use civ4_turn_relay.Local.Records.MemberRoundTrip.{
  verified_lem, downloaded_lem, baseline_lem, outgoing_lem, in_progress_lem, launch_lem,
  association_lem, close_lem, observations_lem,
}
use civ4_turn_relay.Local.Records.Whole.{
  required_keys, optional_keys, read_observations, read_retry_count, read_member, read_identity,
  read_digests, read_text, read_state, from_mapping,
}

module _ (lib : Libraries) (r : MatchLocalRecords) where
  keys_lem : check_keys (to_mapping r) required_keys optional_keys ≡ true
  unfolding check_keys to_mapping
  keys_lem = refl

  records_parts :
      records_valid lib r ≡ true
      → (optional verified_remote_valid r.verified_remote ≡ true)
        × (optional (downloaded_save_valid lib) r.downloaded_save ≡ true)
        × (optional (baseline_valid lib) r.play_session_baseline ≡ true)
        × (optional (outgoing_valid lib) r.outgoing_candidate ≡ true)
        × (all_of (observation_valid lib) r.stability_observations ≡ true)
        × (optional in_progress_valid r.in_progress_handoff ≡ true)
        × (optional (launch_attempt_valid lib) r.launch_attempt ≡ true)
        × (optional (association_valid lib) r.process_association ≡ true)
        × (optional (close_valid lib) r.pending_post_commit_close ≡ true)
        × (records_post_init r ≡ true)
  unfolding records_valid
  records_parts h = ground arith

  digests_parts :
      records_post_init r ≡ true
      → (digests_valid r.processed_outgoing_hashes ≡ true)
        × (digests_valid r.attempted_handoff_hashes ≡ true)
        × (digests_valid r.historically_accepted_hashes ≡ true)
  unfolding records_post_init
  digests_parts h = ground arith

  read_observations_lem :
      all_of (observation_valid lib) r.stability_observations ≡ true
      → read_observations lib (to_mapping r) ≡ some r.stability_observations
  unfolding read_observations to_mapping get_array has_key get
  read_observations_lem h =
      rw (to_list-from_list (observation_values r.stability_observations))
        (observations_lem lib r.stability_observations h)

  verified_remote_back :
      optional verified_remote_valid r.verified_remote ≡ true
      → read_member verified_from_mapping (to_mapping r) (codes "verified_remote")
        ≡ some r.verified_remote
  unfolding to_mapping has_key get
  verified_remote_back v =
      member_lem verified_from_mapping verified_to_mapping verified_remote_valid (verified_lem lib)
        (to_mapping r) (codes "verified_remote") refl r.verified_remote refl v

  downloaded_save_back :
      optional (downloaded_save_valid lib) r.downloaded_save ≡ true
      → read_member (downloaded_from_mapping lib) (to_mapping r) (codes "downloaded_save")
        ≡ some r.downloaded_save
  unfolding to_mapping has_key get
  downloaded_save_back v =
      member_lem (downloaded_from_mapping lib) downloaded_to_mapping (downloaded_save_valid lib)
        (downloaded_lem lib) (to_mapping r) (codes "downloaded_save") refl r.downloaded_save refl v

  play_session_baseline_back :
      optional (baseline_valid lib) r.play_session_baseline ≡ true
      → read_member (baseline_from_mapping lib) (to_mapping r) (codes "play_session_baseline")
        ≡ some r.play_session_baseline
  unfolding to_mapping has_key get
  play_session_baseline_back v =
      member_lem (baseline_from_mapping lib) baseline_to_mapping (baseline_valid lib)
        (baseline_lem lib) (to_mapping r) (codes "play_session_baseline") refl
        r.play_session_baseline refl v

  outgoing_candidate_back :
      optional (outgoing_valid lib) r.outgoing_candidate ≡ true
      → read_member (outgoing_from_mapping lib) (to_mapping r) (codes "outgoing_candidate")
        ≡ some r.outgoing_candidate
  unfolding to_mapping has_key get
  outgoing_candidate_back v =
      member_lem (outgoing_from_mapping lib) outgoing_to_mapping (outgoing_valid lib)
        (outgoing_lem lib) (to_mapping r) (codes "outgoing_candidate") refl r.outgoing_candidate
        refl v

  in_progress_handoff_back :
      optional in_progress_valid r.in_progress_handoff ≡ true
      → read_member in_progress_from_mapping (to_mapping r) (codes "in_progress_handoff")
        ≡ some r.in_progress_handoff
  unfolding to_mapping has_key get
  in_progress_handoff_back v =
      member_lem in_progress_from_mapping in_progress_to_mapping in_progress_valid
        (in_progress_lem lib) (to_mapping r) (codes "in_progress_handoff") refl
        r.in_progress_handoff refl v

  launch_attempt_back :
      optional (launch_attempt_valid lib) r.launch_attempt ≡ true
      → read_member (launch_from_mapping lib) (to_mapping r) (codes "launch_attempt")
        ≡ some r.launch_attempt
  unfolding to_mapping has_key get
  launch_attempt_back v =
      member_lem (launch_from_mapping lib) launch_to_mapping (launch_attempt_valid lib)
        (launch_lem lib) (to_mapping r) (codes "launch_attempt") refl r.launch_attempt refl v

  process_association_back :
      optional (association_valid lib) r.process_association ≡ true
      → read_identity (association_from_mapping lib) (to_mapping r) (codes "process_association")
        ≡ some r.process_association
  unfolding to_mapping has_key get association_to_mapping
  process_association_back v =
      identity_lem (association_from_mapping lib) association_to_mapping (association_valid lib)
        (association_lem lib) (to_mapping r) (codes "process_association") refl (λ a. refl)
        r.process_association refl v

  pending_post_commit_close_back :
      optional (close_valid lib) r.pending_post_commit_close ≡ true
      → read_identity (close_from_mapping lib) (to_mapping r) (codes "pending_post_commit_close")
        ≡ some r.pending_post_commit_close
  unfolding to_mapping has_key get close_to_mapping
  pending_post_commit_close_back v =
      identity_lem (close_from_mapping lib) close_to_mapping (close_valid lib) (close_lem lib)
        (to_mapping r) (codes "pending_post_commit_close") refl (λ a. refl)
        r.pending_post_commit_close refl v

  last_transition_reason_back :
      read_text (to_mapping r) (codes "last_transition_reason") ≡ some r.last_transition_reason
  unfolding to_mapping has_key get
  last_transition_reason_back =
      text_lem (to_mapping r) (codes "last_transition_reason") refl r.last_transition_reason refl

  last_error_class_back :
      read_text (to_mapping r) (codes "last_error_class") ≡ some r.last_error_class
  unfolding to_mapping has_key get
  last_error_class_back =
      text_lem (to_mapping r) (codes "last_error_class") refl r.last_error_class refl

  processed_outgoing_hashes_back :
      digests_valid r.processed_outgoing_hashes ≡ true
      → read_digests (to_mapping r) (codes "processed_outgoing_hashes")
        ≡ some r.processed_outgoing_hashes
  unfolding to_mapping has_key get
  processed_outgoing_hashes_back v =
      digests_lem (to_mapping r) (codes "processed_outgoing_hashes") refl
        r.processed_outgoing_hashes refl v

  attempted_handoff_hashes_back :
      digests_valid r.attempted_handoff_hashes ≡ true
      → read_digests (to_mapping r) (codes "attempted_handoff_hashes")
        ≡ some r.attempted_handoff_hashes
  unfolding to_mapping has_key get
  attempted_handoff_hashes_back v =
      digests_lem (to_mapping r) (codes "attempted_handoff_hashes") refl r.attempted_handoff_hashes
        refl v

  historically_accepted_hashes_back :
      digests_valid r.historically_accepted_hashes ≡ true
      → read_digests (to_mapping r) (codes "historically_accepted_hashes")
        ≡ some r.historically_accepted_hashes
  unfolding to_mapping has_key get
  historically_accepted_hashes_back v =
      digests_lem (to_mapping r) (codes "historically_accepted_hashes") refl
        r.historically_accepted_hashes refl v

  state_back : read_state (to_mapping r) ≡ some r.last_operational_state
  unfolding to_mapping has_key get
  state_back = state_lem (to_mapping r) r.last_operational_state refl refl

  retry_back : read_retry_count (to_mapping r) ≡ some r.retry_count
  unfolding to_mapping read_retry_count has_key get_integer
  retry_back = refl

  pub from_mapping-to_mapping :
      records_valid lib r ≡ true → from_mapping lib (to_mapping r) ≡ some r
  unfolding from_mapping
  from_mapping-to_mapping h =
      let (
        verified, downloaded, baseline, outgoing, observations, progress, launch, association,
        close, post,
      ) =
        records_parts h in
      let (processed, attempted, historical) = digests_parts post in
      rw
        (
          keys_lem,
          processed_outgoing_hashes_back processed,
          read_observations_lem observations,
          attempted_handoff_hashes_back attempted,
          historically_accepted_hashes_back historical,
          state_back,
          verified_remote_back verified,
          downloaded_save_back downloaded,
          play_session_baseline_back baseline,
          outgoing_candidate_back outgoing,
          in_progress_handoff_back progress,
          last_transition_reason_back,
          last_error_class_back,
          retry_back,
          launch_attempt_back launch,
          process_association_back association,
          pending_post_commit_close_back close,
        )
        (unfold to_mapping get_string get_integer in rw post refl)
