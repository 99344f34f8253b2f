-- ===== src/Local/Records/Reading.antt =====
-- local/records.py and protocol/journal.py: the readers of the sequences of records and of the handoff in progress; no value where one raises.
use civ4_turn_relay.Prelude.{
  ℕ, if◌then◌else◌, Option, none, some, List, [], ◌∷◌, Text, Bytes, codes,
}
use civ4_turn_relay.Prelude.Maybe.{◌>>=◌, ◌>>◌, require}
use civ4_turn_relay.Domain.Json.{Value, null, integer, negative, real, object, Fields}
use civ4_turn_relay.Domain.Libraries.{Libraries}
use civ4_turn_relay.Domain.Serialization.{
  check_exact_keys, check_keys, has_key, get, get_string, get_optional_string, get_integer,
  get_array,
}
use civ4_turn_relay.Protocol.Journal.{InProgressHandoff, in_progress_valid}
use civ4_turn_relay.Local.Records.Types.{
  BaselineEntry, PlaySessionBaseline, StabilityObservation, baseline_entry_valid,
  baseline_post_init, observation_valid,
}

-- `read(mapping) if key in mapping else default`
abbrev pub if_present {ℓ} : {A : Type ℓ} → Fields → Text → A → Option A → Option A
if_present mapping key default read = if has_key key mapping then read else some default

abbrev pub optional_sequence : Option Value → Option (Option ℕ)
optional_sequence (some null) = some none
optional_sequence (some (integer n)) = some (some n)
optional_sequence _ = none

abbrev pub in_progress_keys : List Text
in_progress_keys =
    codes "client_id"
    ∷ codes "game_id"
    ∷ codes "operation_id"
    ∷ codes "player_id"
    ∷ codes "sha256"
    ∷ []

-- `InProgressHandoff.from_mapping`
unfoldable pub in_progress_from_mapping : Fields → Option InProgressHandoff
in_progress_from_mapping mapping = do
  require
      (check_keys mapping in_progress_keys (codes "protocol_sequence" ∷ codes "step_reached" ∷ []))
  game_id ← get_string mapping (codes "game_id")
  operation_id ← get_string mapping (codes "operation_id")
  client_id ← get_string mapping (codes "client_id")
  player_id ← get_string mapping (codes "player_id")
  sha256 ← get_string mapping (codes "sha256")
  step_reached ←
      if_present mapping (codes "step_reached") none
        (get_optional_string mapping (codes "step_reached"))
  protocol_sequence ←
      if_present mapping (codes "protocol_sequence") none
        (optional_sequence (get mapping (codes "protocol_sequence")))
  let p : InProgressHandoff = record {
    game_id = game_id;
    operation_id = operation_id;
    client_id = client_id;
    player_id = player_id;
    sha256 = sha256;
    step_reached = step_reached;
    protocol_sequence = protocol_sequence;
  }
  require (in_progress_valid p)
  some p

abbrev pub entry_keys : List Text
entry_keys = codes "path" ∷ codes "sha256" ∷ codes "size_bytes" ∷ []

unfoldable pub entry_from_mapping : Libraries → Fields → Option BaselineEntry
entry_from_mapping lib mapping = do
  require (check_exact_keys mapping entry_keys)
  path ← get_string mapping (codes "path")
  sha256 ← get_string mapping (codes "sha256")
  size_bytes ← get_integer mapping (codes "size_bytes")
  let r : BaselineEntry = record { path = path; sha256 = sha256; size_bytes = size_bytes }
  require (baseline_entry_valid lib r)
  some r

-- The loop over the items of `entries`.
unfoldable pub entries_from : Libraries → List Value → Option (List BaselineEntry)
entries_from lib [] = some []
entries_from lib (object fs ∷ vs) = do
  entry ← entry_from_mapping lib fs
  entries ← entries_from lib vs
  some (entry ∷ entries)
entries_from lib (v ∷ vs) = none

unfoldable pub read_entries : Libraries → Fields → Option (List BaselineEntry)
read_entries lib mapping = do
  raw_entries ← get_array mapping (codes "entries")
  entries_from lib raw_entries

abbrev pub baseline_keys : List Text
baseline_keys =
    codes "accepted_sha256" ∷ codes "entries" ∷ codes "protocol_sequence" ∷ codes "recorded_at" ∷ []

unfoldable pub baseline_from_mapping : Libraries → Fields → Option PlaySessionBaseline
baseline_from_mapping lib mapping = do
  require (check_exact_keys mapping baseline_keys)
  entries ← read_entries lib mapping
  recorded_at ← get_string mapping (codes "recorded_at")
  protocol_sequence ← get_integer mapping (codes "protocol_sequence")
  accepted_sha256 ← get_optional_string mapping (codes "accepted_sha256")
  let r : PlaySessionBaseline = record {
    entries = entries;
    recorded_at = recorded_at;
    protocol_sequence = protocol_sequence;
    accepted_sha256 = accepted_sha256;
  }
  require (baseline_post_init lib r)
  some r

-- `float(raw_time)`
unfoldable pub seconds_of : Libraries → Option Value → Option Bytes
seconds_of lib (some (real x)) = some x
seconds_of lib (some (integer n)) = some (lib.float_of n)
seconds_of lib (some (negative n)) = some (lib.float_of_negative n)
seconds_of lib _ = none

abbrev pub observation_keys : List Text
observation_keys =
    codes "mtime_ns"
    ∷ codes "observed_at_seconds"
    ∷ codes "path"
    ∷ codes "session_accepted_sha256"
    ∷ codes "session_baseline_recorded_at"
    ∷ codes "session_protocol_sequence"
    ∷ codes "size_bytes"
    ∷ []

unfoldable pub observation_from_mapping : Libraries → Fields → Option StabilityObservation
observation_from_mapping lib mapping = do
  require (check_exact_keys mapping observation_keys)
  observed_at_seconds ← seconds_of lib (get mapping (codes "observed_at_seconds"))
  path ← get_string mapping (codes "path")
  size_bytes ← get_integer mapping (codes "size_bytes")
  mtime_ns ← get_integer mapping (codes "mtime_ns")
  session_protocol_sequence ← get_integer mapping (codes "session_protocol_sequence")
  session_accepted_sha256 ← get_optional_string mapping (codes "session_accepted_sha256")
  session_baseline_recorded_at ← get_string mapping (codes "session_baseline_recorded_at")
  let r : StabilityObservation = record {
    observed_at_seconds = observed_at_seconds;
    path = path;
    size_bytes = size_bytes;
    mtime_ns = mtime_ns;
    session_protocol_sequence = session_protocol_sequence;
    session_accepted_sha256 = session_accepted_sha256;
    session_baseline_recorded_at = session_baseline_recorded_at;
  }
  require (observation_valid lib r)
  some r

unfoldable pub observations_from : Libraries → List Value → Option (List StabilityObservation)
observations_from lib [] = some []
observations_from lib (object fs ∷ vs) = do
  observation ← observation_from_mapping lib fs
  observations ← observations_from lib vs
  some (observation ∷ observations)
observations_from lib (v ∷ vs) = none
