-- ===== src/Process/Guard/Scan.antt =====
-- process/guard.py: the classification of a scan, by two searches.
use civ4_turn_relay.Prelude.{
  ◌≡◌, refl, arith, if◌then◌else◌, Bool, true, false, Bool-cases, Option-cases, inl, inr, Option,
  none, some, List, [], ◌∷◌, Text,
}
use civ4_turn_relay.Process.Guard.{
  ProcessScanEntry, MachineScanResult, no_match, exact_match, indeterminate, is_target,
  is_lookalike, scan_entries, classify_scan_entries,
}

-- The first entry that passes the test.
unfoldable pub first : (ProcessScanEntry → Bool) → List ProcessScanEntry → Option ProcessScanEntry
first test [] = none
first test (e ∷ es) = let rest = first test es in if test e then some e else rest

-- A target wins over every look-alike.
unfoldable pub verdict : Option ProcessScanEntry → Option ProcessScanEntry → MachineScanResult
verdict (some e) lookalike = record { outcome = exact_match; pid = some e.pid }
verdict none (some e) = record { outcome = indeterminate; pid = some e.pid }
verdict none none = record { outcome = no_match; pid = none }

abbrev or_first : Option ProcessScanEntry → Option ProcessScanEntry → Option ProcessScanEntry
or_first none later = later
or_first (some e) later = some e

module _ (normpath base casefold : Text → Text) (executable : Text) where
  target-not_lookalike :
      (e : ProcessScanEntry)
      → is_target normpath base casefold executable e ≡ true
      → is_lookalike normpath base casefold executable e ≡ false
  unfolding is_target is_lookalike
  target-not_lookalike e h = ground arith

  scan-verdict :
      (es : List ProcessScanEntry) (seen : Option ProcessScanEntry)
      → scan_entries normpath base casefold executable es seen
        ≡ verdict
            (first (is_target normpath base casefold executable) es)
            (or_first seen (first (is_lookalike normpath base casefold executable) es))
  unfolding scan_entries verdict first
  scan-verdict [] none = refl
  scan-verdict [] (some e) = refl
  scan-verdict (e ∷ es) seen = elim (Bool-cases (is_target normpath base casefold executable e)) [
    | inl t ↦ rw t refl
    | inr n ↦ rw n (elim (Bool-cases (is_lookalike normpath base casefold executable e)) [
      | inl l ↦ rw l (elim (Option-cases seen) [
        | inl unseen ↦ rw unseen (scan-verdict es (some e))
        | inr (s, is) ↦ rw is (scan-verdict es (some s))
      ])
      | inr o ↦ rw o (scan-verdict es seen)
    ])
  ]

  -- `classify_scan_entries` finds an exact match, with its process id, where some entry's path is the
  -- configured executable, whatever stands before it; else it is indeterminate where some entry of
  -- unknown path has the executable's name, with the first such id; else there is no match.
  pub classify_scan_entries-verdict :
      (es : List ProcessScanEntry)
      → classify_scan_entries normpath base casefold executable es
        ≡ verdict
            (first (is_target normpath base casefold executable) es)
            (first (is_lookalike normpath base casefold executable) es)
  unfolding classify_scan_entries
  classify_scan_entries-verdict es = scan-verdict es none
