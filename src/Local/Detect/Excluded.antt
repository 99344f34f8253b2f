-- ===== src/Local/Detect/Excluded.antt =====
-- local/detect.py: no known save is an outgoing candidate.
use civ4_turn_relay.Prelude.{
  ◌==◌, subst, ap, sym, ◌∙◌, ◌⊎◌, codes, ℕ, ltb, leb, ◌≡◌, refl, arith, length, if◌then◌else◌, Bool,
  Bool-cases, inl, inr, true, false, not, ◌&&◌, ◌||◌, Option, none, some, List, [], ◌∷◌, ◌++◌, Text,
  Bytes,
}
use civ4_turn_relay.Domain.Libraries.{Libraries}
use civ4_turn_relay.Domain.Paths.{all_of, validate_windows_local_path}
use civ4_turn_relay.Local.Records.Types.{
  MatchLocalRecords, PlaySessionBaseline, OutgoingCandidateRecord, outgoing_valid,
}
use civ4_turn_relay.Local.Detect.Types.{DetectionResult, containment_failure}
use civ4_turn_relay.Local.Detect.Samples.{Sample, is_stable}
use civ4_turn_relay.Local.Detect.New.{is_new, hash_at-is_path, hashes-is_digest, contains-excluded}
use civ4_turn_relay.Local.Detect.Observe.{
  is_unchanged, hash_at, FileView, Scan, Step, go_on, stop, raises, excluded_hashes, failure,
  is_known, candidate_of, add_candidate, after_second_read, sample_of, seen, potential,
  after_first_read, after_stat, after_contained, observe_file, observe_files, conclude, result_of,
  start_of, observe_directory, observe_session, observe_outgoing_candidates,
}

abbrev get_or : {A : Type 0} → A → Option A → A
get_or a none = a
get_or a (some b) = b

some-injective : {A : Type 0} {a b : A} → some a ≡ some b → a ≡ b
some-injective {a = a} p = ap (get_or a) p

module _ (lib : Libraries) (elapsed : Bytes → Bytes → Bool) (sorted : List Bytes → List Bytes)
    (baseline : PlaySessionBaseline) (excluded : List Text) (now : Bytes) (max : ℕ) where
  -- Content that is not known, of a size within the limit, in a record that its constructor accepts.
  unfoldable pub is_unknown : OutgoingCandidateRecord → Bool
  is_unknown c =
      not (is_known lib elapsed sorted baseline excluded now max c.path c.sha256)
      && leb c.size_bytes max
      && outgoing_valid lib c

  abbrev IsClean : Step → Type 0
  IsClean (go_on s) = all_of is_unknown s.stable_candidates ≡ true
  IsClean (stop r) = all_of is_unknown r.candidates ≡ true
  IsClean raises = Unit

  all_new-append :
      (cs : List OutgoingCandidateRecord) (c : OutgoingCandidateRecord)
      → all_of is_unknown cs ≡ true
      → is_unknown c ≡ true
      → all_of is_unknown (cs ++ (c ∷ [])) ≡ true
  unfolding all_of
  all_new-append [] c h n = ground arith
  all_new-append (d ∷ cs) c h n = ground (arith, all_new-append cs c)

  IsClean-if :
      (b : Bool) (x y : Step)
      → (b ≡ true → IsClean x)
      → (b ≡ false → IsClean y)
      → IsClean (if b then x else y)
  IsClean-if true x y hx hy = hx refl
  IsClean-if false x y hx hy = hy refl

  second-IsClean :
      (s : Scan) (path : Text) (size : ℕ) (content : Option Bytes)
      → all_of is_unknown s.stable_candidates ≡ true
      → leb size max ≡ true
      → IsClean (after_second_read lib elapsed sorted baseline excluded now max s path size content)
  unfolding after_second_read add_candidate candidate_of all_of
  second-IsClean s path size none clean fits = refl
  second-IsClean s path size (some content) clean fits =
      IsClean-if (not (length content == size)) _ _ (λ _. clean)
        (λ _.
          IsClean-if
            (is_known lib elapsed sorted baseline excluded now max path
              (lib.sha256_hexdigest content))
            _ _ (λ _. clean)
            (λ unknown.
              IsClean-if (outgoing_valid lib c) _ _
                (λ valid.
                  all_new-append s.stable_candidates c clean
                    (unfold is_unknown in rw (unknown, fits, valid) refl))
                (λ _. tt)))
    where
      c : OutgoingCandidateRecord
      c = record { path = path; sha256 = lib.sha256_hexdigest content; size_bytes = size }

  potential-IsClean :
      (s : Scan) (x : Sample) (second : Option Bytes)
      → all_of is_unknown s.stable_candidates ≡ true
      → leb x.size_bytes max ≡ true
      → IsClean (potential lib elapsed sorted baseline excluded now max s x second)
  unfolding potential seen
  potential-IsClean s x second clean fits =
      IsClean-if
        (is_stable elapsed sorted
          (seen lib elapsed sorted baseline excluded now max s x).observations x now)
        _ _ (λ _. second-IsClean _ x.path x.size_bytes second clean fits) (λ _. clean)

  first-IsClean :
      (s : Scan) (f : FileView) (x : Sample) (content : Option Bytes)
      → all_of is_unknown s.stable_candidates ≡ true
      → leb x.size_bytes max ≡ true
      → IsClean (after_first_read lib elapsed sorted baseline excluded now max s f x content)
  unfolding after_first_read all_of
  first-IsClean s f x none clean fits = refl
  first-IsClean s f x (some content) clean fits =
      IsClean-if
        (is_unchanged (lib.sha256_hexdigest content) (length content) x.size_bytes
          (hash_at baseline.entries x.path))
        _ _ (λ _. clean)
        (λ _.
          IsClean-if
            (is_known lib elapsed sorted baseline excluded now max x.path
              (lib.sha256_hexdigest content))
            _ _ (λ _. clean) (λ _. potential-IsClean s x f.second_read clean fits))

  stat-IsClean :
      (s : Scan) (f : FileView) (path : Text) (stat : Option (ℕ × ℕ))
      → all_of is_unknown s.stable_candidates ≡ true
      → IsClean (after_stat lib elapsed sorted baseline excluded now max s f path stat)
  unfolding after_stat all_of sample_of
  stat-IsClean s f path none clean = refl
  stat-IsClean s f path (some (size, mtime_ns)) clean =
      IsClean-if (ltb max size) _ _ (λ _. clean)
        (λ fits.
          IsClean-if (validate_windows_local_path lib.is_windows_absolute path) _ _
            (λ _. first-IsClean s f _ f.first_read clean (ground (arith, fits))) (λ _. tt))

  contained-IsClean :
      (s : Scan) (f : FileView) (path : Option Text)
      → all_of is_unknown s.stable_candidates ≡ true
      → IsClean (after_contained lib elapsed sorted baseline excluded now max s f path)
  unfolding after_contained all_of
  contained-IsClean s f none clean = refl
  contained-IsClean s f (some path) clean = stat-IsClean s f path f.stat clean

  file-IsClean :
      (s : Scan) (f : FileView)
      → all_of is_unknown s.stable_candidates ≡ true
      → IsClean (observe_file lib elapsed sorted baseline excluded now max s f)
  unfolding observe_file
  file-IsClean s f clean =
      IsClean-if (f.is_symlink || not f.is_file || not f.is_matched) _ _ (λ _. clean)
        (λ _. contained-IsClean s f f.contained clean)

  -- The loop keeps the invariant.
  pub files-IsClean :
      (fs : List FileView) (s : Scan)
      → all_of is_unknown s.stable_candidates ≡ true
      → IsClean (observe_files lib elapsed sorted baseline excluded now max fs s)
  unfolding observe_files
  files-IsClean [] s clean = clean
  files-IsClean (f ∷ fs) s clean =
      (elim (observe_file lib elapsed sorted baseline excluded now max s f)
          as (λ step.
            IsClean step
            → IsClean (elim step [
              | go_on s' ↦ observe_files lib elapsed sorted baseline excluded now max fs s'
              | stop r ↦ stop r
              | raises ↦ raises
            ])) [ go_on s' ↦ λ c. files-IsClean fs s' c | stop r ↦ λ c. c | raises ↦ λ c. c ])
        (file-IsClean s f clean)

  -- The candidates of the result are those of the loop.
  conclude-clean :
      (s : Scan) (cs : List OutgoingCandidateRecord)
      → s.stable_candidates ≡ cs
      → all_of is_unknown cs ≡ true
      → all_of is_unknown (conclude s cs).candidates ≡ true
  unfolding conclude all_of
  conclude-clean s (c ∷ d ∷ cs) e h = rw e h
  conclude-clean s (c ∷ []) e h = rw e h
  conclude-clean s [] e h = ground arith

  result-clean :
      (step : Step) (r : DetectionResult)
      → IsClean step
      → result_of step ≡ some r
      → all_of is_unknown r.candidates ≡ true
  unfolding result_of
  result-clean (go_on s) r h e =
      subst (λ t. all_of is_unknown t.candidates ≡ true) (some-injective e)
        (conclude-clean s s.stable_candidates refl h)
  result-clean (stop q) r h e =
      subst (λ t. all_of is_unknown t.candidates ≡ true) (some-injective e) h
  result-clean raises r h e = absurd (ground arith)

module _ (lib : Libraries) (elapsed : Bytes → Bytes → Bool) (sorted : List Bytes → List Bytes)
    (pbem_dir : Text) (records : MatchLocalRecords) (accepted : List Text) (now : Bytes) (max : ℕ)
    (baseline : PlaySessionBaseline) where
  directory-clean :
      (files : Option (List FileView)) (r : DetectionResult)
      → observe_directory lib elapsed sorted pbem_dir records accepted now max baseline files
        ≡ some r
      → all_of
          (is_unknown lib elapsed sorted baseline (excluded_hashes records accepted) now max)
          r.candidates
        ≡ true
  unfolding observe_directory all_of start_of
  directory-clean none r e =
      subst
        (λ t.
          all_of (is_unknown lib elapsed sorted baseline (excluded_hashes records accepted) now max)
            t.candidates
          ≡ true)
        (some-injective e) refl
  directory-clean (some files) r e =
      result-clean lib elapsed sorted baseline (excluded_hashes records accepted) now max _ r
        (files-IsClean lib elapsed sorted baseline (excluded_hashes records accepted) now max files
          _ refl)
        e

  session-parts :
      (files : Option (List FileView)) (r : DetectionResult)
      → observe_session lib elapsed sorted pbem_dir records accepted now max (some baseline) files
        ≡ some r
      → (observe_directory lib elapsed sorted pbem_dir records accepted now max baseline files
          ≡ some r)
        ⊎ (r ≡ failure containment_failure (codes "invalid_pbem_directory"))
  unfolding observe_session
  session-parts files r e =
      elim (Bool-cases (validate_windows_local_path lib.is_windows_absolute pbem_dir)) [
        | inl v ↦ inl (ground arith)
        | inr v ↦ inr (ground arith)
      ]

  unknown-new :
      (c : OutgoingCandidateRecord)
      → is_unknown lib elapsed sorted baseline (excluded_hashes records accepted) now max c ≡ true
      → is_new lib records accepted baseline max c ≡ true
  unfolding is_unknown is_known is_new
  unknown-new c h = ground (
    arith,
    contains-excluded records accepted c.sha256,
    hash_at-is_path baseline.entries c.path,
    hashes-is_digest baseline.entries c.sha256,
  )

  all_unknown-new :
      (cs : List OutgoingCandidateRecord)
      → all_of
          (is_unknown lib elapsed sorted baseline (excluded_hashes records accepted) now max)
          cs
        ≡ true
      → all_of (is_new lib records accepted baseline max) cs ≡ true
  unfolding all_of
  all_unknown-new [] h = refl
  all_unknown-new (c ∷ cs) h = ground (arith, unknown-new c, all_unknown-new cs)

  -- Where a play session's baseline stands, every candidate that `observe_outgoing_candidates`
  -- returns is new, whatever the file system answers: its digest is none of those that were processed,
  -- accepted or downloaded; if its own path is not in the baseline, no path of the baseline has its
  -- digest; its size is within the limit; and its constructor accepts it. Where its path is in the
  -- baseline, the digests of the baseline are not excluded.
  pub observe-new :
      (files : Option (List FileView)) (r : DetectionResult)
      → records.play_session_baseline ≡ some baseline
      → observe_outgoing_candidates lib elapsed sorted pbem_dir records accepted now max files
        ≡ some r
      → all_of (is_new lib records accepted baseline max) r.candidates ≡ true
  unfolding observe_outgoing_candidates
  observe-new files r stands e =
      elim (session-parts files r (
        sym (
          ap (λ o. observe_session lib elapsed sorted pbem_dir records accepted now max o files)
            stands)
        ∙ e)) [
          | inl d ↦ all_unknown-new r.candidates (directory-clean files r d)
          | inr f ↦ rw f (unfold all_of in refl)
        ]
