-- ===== src/Local/Detect/Samples.antt =====
-- local/detect.py: the stability samples of a play session. Differences of floats are a parameter.
use civ4_turn_relay.Prelude.{
  ℕ, ◌==◌, leb, if◌then◌else◌, length, Bool, false, not, ◌&&◌, ◌||◌, Option, none, some, List, [],
  ◌∷◌, ◌++◌, Text, Bytes, text_eq, get_last?,
}
use civ4_turn_relay.Local.Records.Types.{PlaySessionBaseline, StabilityObservation}
use civ4_turn_relay.Local.Orchestrate.{same_hash}

-- `_session_key`
pub record Session : Type 0 where
  pub protocol_sequence : ℕ
  pub accepted_sha256 : Option Text
  pub baseline_recorded_at : Text

unfoldable pub session_of : PlaySessionBaseline → Session
session_of b = record {
  protocol_sequence = b.protocol_sequence;
  accepted_sha256 = b.accepted_sha256;
  baseline_recorded_at = b.recorded_at;
}

-- `tuple(item for item in items if test(item))`
unfoldable pub filter :
    (StabilityObservation → Bool) → List StabilityObservation → List StabilityObservation
filter test [] = []
filter test (o ∷ os) = let rest = filter test os in if test o then o ∷ rest else rest

unfoldable pub in_session : Session → StabilityObservation → Bool
in_session s o =
    o.session_protocol_sequence == s.protocol_sequence
    && same_hash o.session_accepted_sha256 s.accepted_sha256
    && text_eq o.session_baseline_recorded_at s.baseline_recorded_at

-- `_filter_session_observations`
unfoldable pub filter_session_observations :
    Session → List StabilityObservation → List StabilityObservation
filter_session_observations s = filter (in_session s)

abbrev pub at_path : Text → StabilityObservation → Bool
at_path path o = text_eq o.path path

-- `_observations_for_path`
unfoldable pub observations_for_path : List StabilityObservation → Text → List StabilityObservation
observations_for_path os path = filter (at_path path) os

-- What was seen of a file.
pub record Sample : Type 0 where
  pub path : Text
  pub size_bytes : ℕ
  pub mtime_ns : ℕ
  pub observed_at : Bytes

abbrev pub differs : Sample → Option StabilityObservation → Bool
differs s none = false
differs s (some o) = not (o.size_bytes == s.size_bytes) || not (o.mtime_ns == s.mtime_ns)

-- The constructor accepts it, as the path and the session are valid.
unfoldable pub observation_of : Session → Sample → StabilityObservation
observation_of s x = record {
  path = x.path;
  size_bytes = x.size_bytes;
  observed_at_seconds = x.observed_at;
  mtime_ns = x.mtime_ns;
  session_protocol_sequence = s.protocol_sequence;
  session_accepted_sha256 = s.accepted_sha256;
  session_baseline_recorded_at = s.baseline_recorded_at;
}

-- The prior samples, unless the last one shows another file.
unfoldable pub prior_samples : Sample → List StabilityObservation → List StabilityObservation
prior_samples x os = if differs x (get_last? os) then [] else os

-- The oldest and the newest of the samples and the new one, if they are more than two.
unfoldable pub bounded :
    List StabilityObservation → StabilityObservation → List StabilityObservation
bounded [] new = new ∷ []
bounded (o ∷ os) new = o ∷ new ∷ []

-- `_merge_observations`
unfoldable pub merge_observations :
    Session → Sample → List StabilityObservation → List StabilityObservation
merge_observations s x existing =
    let scoped = filter_session_observations s existing in
    let samples = prior_samples x (observations_for_path scoped x.path) in
    filter (λ o. not (at_path x.path o)) scoped ++ bounded samples (observation_of s x)

abbrev pub is_sample_of : Sample → StabilityObservation → Bool
is_sample_of x o = o.size_bytes == x.size_bytes && o.mtime_ns == x.mtime_ns

-- `a - b >= STABILITY_INTERVAL_SECONDS` and `sorted` on floats are parameters.
module _ (elapsed : Bytes → Bytes → Bool) (sorted : List Bytes → List Bytes) where
  unfoldable pub times : List StabilityObservation → List Bytes
  times [] = []
  times (o ∷ os) = o.observed_at_seconds ∷ times os

  -- Two neighbours of the sorted times are far enough apart.
  unfoldable pub has_gap : List Bytes → Bool
  has_gap (earlier ∷ later ∷ rest) = elapsed later earlier || has_gap (later ∷ rest)
  has_gap _ = false

  abbrev pub first_elapsed : Bytes → List StabilityObservation → Bool
  first_elapsed now [] = false
  first_elapsed now (o ∷ os) = elapsed now o.observed_at_seconds

  -- `_is_stable`
  unfoldable pub is_stable : List StabilityObservation → Sample → Bytes → Bool
  is_stable os x now =
      let samples = filter (is_sample_of x) (observations_for_path os x.path) in
      leb 2 (length samples) && (has_gap (sorted (times samples)) || first_elapsed now samples)
