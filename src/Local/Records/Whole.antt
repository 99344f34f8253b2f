-- ===== src/Local/Records/Whole.antt =====
-- local/records.py: the reader of the records of a match; no value where one raises.
use civ4_turn_relay.Prelude.{
  ℕ, if◌then◌else◌, Option, none, some, List, [], ◌∷◌, Text, Bytes, codes, text_eq,
}
use civ4_turn_relay.Prelude.Maybe.{◌>>=◌, ◌>>◌, require}
use civ4_turn_relay.Domain.Json.{Value, null, string, Fields}
use civ4_turn_relay.Domain.Libraries.{Libraries}
use civ4_turn_relay.Domain.Serialization.{
  parse_json_object_bytes, check_keys, has_key, get, get_string, get_optional_string, get_integer,
  get_array, get_optional_object,
}
use civ4_turn_relay.Domain.Config.{
  OperationalState, reconciling, waiting_for_my_first_save, waiting_for_other_player, downloading,
  my_turn_downloaded, civ_running, outgoing_save_detected, uploading, error,
}
use civ4_turn_relay.Domain.Manifest.Codec.{hashes_from}
use civ4_turn_relay.Local.Records.Types.{
  StabilityObservation, MatchLocalRecords, digests_valid, records_post_init,
}
use civ4_turn_relay.Local.Records.Mappings.{state_name}
use civ4_turn_relay.Local.Records.Reading.{
  if_present, in_progress_from_mapping, baseline_from_mapping, observations_from,
}
use civ4_turn_relay.Local.Records.Members.{
  close_from_mapping, verified_from_mapping, downloaded_from_mapping, outgoing_from_mapping,
  launch_from_mapping, association_from_mapping,
}

abbrev pub all_states : List OperationalState
all_states =
    reconciling ∷ waiting_for_my_first_save ∷ waiting_for_other_player ∷ downloading
    ∷ my_turn_downloaded ∷ civ_running ∷ outgoing_save_detected ∷ uploading ∷ error ∷ []

-- The state of that name.
unfoldable pub find_state : Text → List OperationalState → Option OperationalState
find_state value [] = none
find_state value (s ∷ ss) = if text_eq (state_name s) value then some s else find_state value ss

-- `_parse_operational_state`, where the value is not `None`
unfoldable pub parse_operational_state : Option Value → Option (Option OperationalState)
parse_operational_state (some null) = some none
parse_operational_state (some (string name)) =
    find_state name all_states >>= λ state. some (some state)
parse_operational_state _ = none

-- `get_optional_object(mapping, key) if key in mapping else None`
unfoldable pub raw_member : Fields → Text → Option (Option Fields)
raw_member mapping key = if_present mapping key none (get_optional_object mapping key)

-- `None if raw is None else read(raw)`
abbrev pub read_raw {ℓ} : {A : Type ℓ} → (Fields → Option A) → Option Fields → Option (Option A)
read_raw read none = some none
read_raw read (some raw) = read raw >>= λ a. some (some a)

unfoldable pub read_member {ℓ} :
    {A : Type ℓ} → (Fields → Option A) → Fields → Text → Option (Option A)
read_member read mapping key = raw_member mapping key >>= read_raw read

-- A record that lacks the creation token is discarded.
abbrev pub with_token : Option Fields → Option Fields
with_token none = none
with_token (some raw) = if has_key (codes "process_create_time_ns") raw then some raw else none

unfoldable pub read_identity {ℓ} :
    {A : Type ℓ} → (Fields → Option A) → Fields → Text → Option (Option A)
read_identity read mapping key = raw_member mapping key >>= λ raw. read_raw read (with_token raw)

-- `_string_tuple_from_array(get_array(mapping, key)) if key in mapping else ()`
unfoldable pub digests_from : Option (List Value) → Option (List Text)
digests_from none = none
digests_from (some raw) = do hashes ← hashes_from raw; require (digests_valid hashes); some hashes

unfoldable pub read_digests : Fields → Text → Option (List Text)
read_digests mapping key = if_present mapping key [] (digests_from (get_array mapping key))

unfoldable pub read_observations : Libraries → Fields → Option (List StabilityObservation)
read_observations lib mapping =
    if_present mapping (codes "stability_observations") []
      (get_array mapping (codes "stability_observations") >>= observations_from lib)

unfoldable pub read_text : Fields → Text → Option (Option Text)
read_text mapping key = if_present mapping key none (get_optional_string mapping key)

unfoldable pub read_state : Fields → Option (Option OperationalState)
read_state mapping =
    if_present mapping (codes "last_operational_state") none
      (parse_operational_state (get mapping (codes "last_operational_state")))

unfoldable pub read_retry_count : Fields → Option ℕ
read_retry_count mapping =
    if_present mapping (codes "retry_count") 0 (get_integer mapping (codes "retry_count"))

abbrev pub required_keys : List Text
required_keys = codes "game_id" ∷ codes "schema_version" ∷ []

abbrev pub optional_keys : List Text
optional_keys =
    codes "attempted_handoff_hashes"
    ∷ codes "downloaded_save"
    ∷ codes "historically_accepted_hashes"
    ∷ codes "in_progress_handoff"
    ∷ codes "last_error_class"
    ∷ codes "last_operational_state"
    ∷ codes "last_transition_reason"
    ∷ codes "launch_attempt"
    ∷ codes "outgoing_candidate"
    ∷ codes "pending_post_commit_close"
    ∷ codes "play_session_baseline"
    ∷ codes "process_association"
    ∷ codes "processed_outgoing_hashes"
    ∷ codes "retry_count"
    ∷ codes "stability_observations"
    ∷ codes "verified_remote"
    ∷ []

-- `MatchLocalRecords.from_mapping`
unfoldable pub from_mapping : Libraries → Fields → Option MatchLocalRecords
from_mapping lib mapping = do
  require (check_keys mapping required_keys optional_keys)
  processed_outgoing_hashes ← read_digests mapping (codes "processed_outgoing_hashes")
  stability_observations ← read_observations lib mapping
  attempted_handoff_hashes ← read_digests mapping (codes "attempted_handoff_hashes")
  historically_accepted_hashes ← read_digests mapping (codes "historically_accepted_hashes")
  last_operational_state ← read_state mapping
  game_id ← get_string mapping (codes "game_id")
  schema_version ← get_integer mapping (codes "schema_version")
  verified_remote ← read_member verified_from_mapping mapping (codes "verified_remote")
  downloaded_save ← read_member (downloaded_from_mapping lib) mapping (codes "downloaded_save")
  play_session_baseline ←
      read_member (baseline_from_mapping lib) mapping (codes "play_session_baseline")
  outgoing_candidate ← read_member (outgoing_from_mapping lib) mapping (codes "outgoing_candidate")
  in_progress_handoff ← read_member in_progress_from_mapping mapping (codes "in_progress_handoff")
  last_transition_reason ← read_text mapping (codes "last_transition_reason")
  last_error_class ← read_text mapping (codes "last_error_class")
  retry_count ← read_retry_count mapping
  launch_attempt ← read_member (launch_from_mapping lib) mapping (codes "launch_attempt")
  process_association ←
      read_identity (association_from_mapping lib) mapping (codes "process_association")
  pending_post_commit_close ←
      read_identity (close_from_mapping lib) mapping (codes "pending_post_commit_close")
  let r : MatchLocalRecords = record {
    game_id = game_id;
    schema_version = schema_version;
    verified_remote = verified_remote;
    downloaded_save = downloaded_save;
    play_session_baseline = play_session_baseline;
    outgoing_candidate = outgoing_candidate;
    processed_outgoing_hashes = processed_outgoing_hashes;
    stability_observations = stability_observations;
    in_progress_handoff = in_progress_handoff;
    attempted_handoff_hashes = attempted_handoff_hashes;
    historically_accepted_hashes = historically_accepted_hashes;
    last_operational_state = last_operational_state;
    last_transition_reason = last_transition_reason;
    last_error_class = last_error_class;
    retry_count = retry_count;
    launch_attempt = launch_attempt;
    process_association = process_association;
    pending_post_commit_close = pending_post_commit_close;
  }
  require (records_post_init r)
  some r

-- `MatchLocalRecords.from_json_bytes`
unfoldable pub from_json_bytes : Libraries → Bytes → Option MatchLocalRecords
from_json_bytes lib content = parse_json_object_bytes lib content >>= from_mapping lib
