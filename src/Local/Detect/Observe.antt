-- ===== src/Local/Detect/Observe.antt =====
-- local/detect.py: the scan of the player's directory for outgoing candidates. What the file system
-- answers for each path is a value; a read may give other bytes the second time.
use civ4_turn_relay.Prelude.{
  ℕ, ◌==◌, ltb, if◌then◌else◌, length, is_some, Bool, true, false, not, ◌&&◌, ◌||◌, Option, none,
  some, List, [], ◌∷◌, ◌++◌, Text, Bytes, codes, text_eq, contains,
}
use civ4_turn_relay.Prelude.Maybe.{◌>>◌, require}
use civ4_turn_relay.Domain.Libraries.{Libraries}
use civ4_turn_relay.Domain.Paths.{all_of, validate_windows_local_path}
use civ4_turn_relay.Domain.Ids.{validate_sha256_hex}
use civ4_turn_relay.Local.Records.Types.{
  MatchLocalRecords, PlaySessionBaseline, BaselineEntry, DownloadedSaveRecord,
  OutgoingCandidateRecord, StabilityObservation, outgoing_valid,
}
use civ4_turn_relay.Local.Detect.Types.{
  DetectionResult, DetectionOutcome, no_candidate, stabilizing, one_candidate, multiple_candidates,
  missing_baseline, io_failure, containment_failure,
}
use civ4_turn_relay.Local.Detect.Samples.{
  Sample, session_of, filter_session_observations, merge_observations, is_stable,
}

-- One path below the directory: whether it is a link, a file and matched by the glob; where it
-- resolves to inside the directory; its size and time; and the bytes of the two reads.
pub record FileView : Type 0 where
  pub is_symlink : Bool
  pub is_file : Bool
  pub is_matched : Bool
  pub contained : Option Text
  pub stat : Option (ℕ × ℕ)
  pub first_read : Option Bytes
  pub second_read : Option Bytes

abbrev pub downloaded_hash : Option DownloadedSaveRecord → List Text
downloaded_hash none = []
downloaded_hash (some d) = d.sha256 ∷ []

-- `_excluded_hashes`
unfoldable pub excluded_hashes : MatchLocalRecords → List Text → List Text
excluded_hashes r accepted =
    r.processed_outgoing_hashes ++ (accepted ++ downloaded_hash r.downloaded_save)

-- `_baseline_index`: the hash at a path, and all the hashes.
unfoldable pub hash_at : List BaselineEntry → Text → Option Text
hash_at [] path = none
hash_at (e ∷ es) path =
    let rest = hash_at es path in if text_eq e.path path then some e.sha256 else rest

unfoldable pub entry_hashes : List BaselineEntry → List Text
entry_hashes [] = []
entry_hashes (e ∷ es) = e.sha256 ∷ entry_hashes es

abbrev pub is_unchanged : Text → ℕ → ℕ → Option Text → Bool
is_unchanged digest length size none = false
is_unchanged digest length size (some known) = text_eq digest known && length == size

abbrev pub failure : DetectionOutcome → Text → DetectionResult
failure outcome why = record {
  outcome = outcome;
  candidates = [];
  observations = [];
  reason = some why;
}

-- The variables of the loop.
pub record Scan : Type 0 where
  pub observations : List StabilityObservation
  pub stable_candidates : List OutgoingCandidateRecord
  pub saw_potential : Bool

-- What one path leads to: the next one, an early return, or a raise.
pub data Step : Type 0 where
  go_on : Scan → Step
  stop : DetectionResult → Step
  raises : Step

module _ (lib : Libraries) (elapsed : Bytes → Bytes → Bool) (sorted : List Bytes → List Bytes)
    (baseline : PlaySessionBaseline) (excluded : List Text) (now_seconds : Bytes)
    (max_save_bytes : ℕ) where
  -- The content is known: excluded, or in the baseline under another path.
  unfoldable pub is_known : Text → Text → Bool
  is_known path digest =
      contains excluded digest
      || (not (is_some (hash_at baseline.entries path))
          && contains (entry_hashes baseline.entries) digest)

  unfoldable pub candidate_of : Text → ℕ → Bytes → OutgoingCandidateRecord
  candidate_of path size content = record {
    path = path;
    sha256 = lib.sha256_hexdigest content;
    size_bytes = size;
  }

  -- The constructor raises on a candidate that is not valid.
  unfoldable pub add_candidate : Scan → OutgoingCandidateRecord → Step
  add_candidate s c =
      if outgoing_valid lib c
      then go_on (record s { stable_candidates = s.stable_candidates ++ (c ∷ []) })
      else raises

  unfoldable pub after_second_read : Scan → Text → ℕ → Option Bytes → Step
  after_second_read s path size none = stop (failure io_failure (codes "read_failed"))
  after_second_read s path size (some content) =
      if not (length content == size)
      then go_on s
      else if is_known path (lib.sha256_hexdigest content)
      then go_on s
      else add_candidate s (candidate_of path size content)

  unfoldable pub sample_of : Text → ℕ → ℕ → Sample
  sample_of path size mtime_ns = record {
    path = path;
    size_bytes = size;
    mtime_ns = mtime_ns;
    observed_at = now_seconds;
  }

  unfoldable pub seen : Scan → Sample → Scan
  seen s x = record s {
    saw_potential = true;
    observations = merge_observations (session_of baseline) x s.observations;
  }

  unfoldable pub potential : Scan → Sample → Option Bytes → Step
  potential s x second =
      if is_stable elapsed sorted (seen s x).observations x now_seconds
      then after_second_read (seen s x) x.path x.size_bytes second
      else go_on (seen s x)

  unfoldable pub after_first_read : Scan → FileView → Sample → Option Bytes → Step
  after_first_read s f x none = stop (failure io_failure (codes "read_failed"))
  after_first_read s f x (some content) =
      if is_unchanged (lib.sha256_hexdigest content) (length content) x.size_bytes
        (hash_at baseline.entries x.path)
      then go_on s
      else if is_known x.path (lib.sha256_hexdigest content)
      then go_on s
      else potential s x f.second_read

  unfoldable pub after_stat : Scan → FileView → Text → Option (ℕ × ℕ) → Step
  after_stat s f path none = stop (failure io_failure (codes "stat_failed"))
  after_stat s f path (some (size, mtime_ns)) =
      if ltb max_save_bytes size
      then go_on s
      else if validate_windows_local_path lib.is_windows_absolute path
      then after_first_read s f (sample_of path size mtime_ns) f.first_read
      else raises

  unfoldable pub after_contained : Scan → FileView → Option Text → Step
  after_contained s f none = stop (failure containment_failure (codes "path_escapes_pbem_root"))
  after_contained s f (some path) = after_stat s f path f.stat

  unfoldable pub observe_file : Scan → FileView → Step
  observe_file s f =
      if f.is_symlink || not f.is_file || not f.is_matched
      then go_on s
      else after_contained s f f.contained

  -- The loop, with the variables at its end.
  unfoldable pub observe_files : List FileView → Scan → Step
  observe_files [] s = go_on s
  observe_files (f ∷ fs) s = elim (observe_file s f) [
    | go_on s' ↦ observe_files fs s'
    | stop r ↦ stop r
    | raises ↦ raises
  ]

unfoldable pub conclude : Scan → List OutgoingCandidateRecord → DetectionResult
conclude s (c ∷ d ∷ cs) = record {
  outcome = multiple_candidates;
  candidates = s.stable_candidates;
  observations = s.observations;
  reason = some (codes "multiple_stable_candidates");
}
conclude s (c ∷ []) = record {
  outcome = one_candidate;
  candidates = s.stable_candidates;
  observations = s.observations;
  reason = none;
}
conclude s [] =
    if s.saw_potential
    then record {
      outcome = stabilizing;
      candidates = [];
      observations = s.observations;
      reason = some (codes "awaiting_stability");
    }
    else record {
      outcome = no_candidate;
      candidates = [];
      observations = s.observations;
      reason = none;
    }

unfoldable pub result_of : Step → Option DetectionResult
result_of (go_on s) = some (conclude s s.stable_candidates)
result_of (stop r) = some r
result_of raises = none

module _ (lib : Libraries) (elapsed : Bytes → Bytes → Bool) (sorted : List Bytes → List Bytes)
    (pbem_dir : Text) (records : MatchLocalRecords) (accepted : List Text) (now_seconds : Bytes)
    (max_save_bytes : ℕ) where
  unfoldable pub start_of : PlaySessionBaseline → Scan
  start_of baseline = record {
    observations = filter_session_observations (session_of baseline) records.stability_observations;
    stable_candidates = [];
    saw_potential = false;
  }

  -- No value of the directory is one that is missing; no result is a raise.
  unfoldable pub observe_directory :
      PlaySessionBaseline → Option (List FileView) → Option DetectionResult
  observe_directory baseline none = some (failure io_failure (codes "pbem_dir_missing"))
  observe_directory baseline (some files) = result_of (
      observe_files lib elapsed sorted baseline (excluded_hashes records accepted) now_seconds
        max_save_bytes files (start_of baseline))

  unfoldable pub observe_session :
      Option PlaySessionBaseline → Option (List FileView) → Option DetectionResult
  observe_session none files =
      some (failure missing_baseline (codes "play_session_baseline_missing"))
  observe_session (some baseline) files =
      if validate_windows_local_path lib.is_windows_absolute pbem_dir
      then require (ltb 0 max_save_bytes)
        >> (require (all_of validate_sha256_hex accepted) >> observe_directory baseline files)
      else some (failure containment_failure (codes "invalid_pbem_directory"))

  -- `observe_outgoing_candidates`
  unfoldable pub observe_outgoing_candidates : Option (List FileView) → Option DetectionResult
  observe_outgoing_candidates = observe_session records.play_session_baseline
