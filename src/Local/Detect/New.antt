-- ===== src/Local/Detect/New.antt =====
-- local/detect.py: what makes an outgoing candidate new, by the records.
use civ4_turn_relay.Prelude.{
  text_eq, contains, is_some, ℕ, leb, ◌≡◌, refl, arith, Bool, false, not, ◌&&◌, ◌||◌, Option, none,
  some, List, [], ◌∷◌, ◌++◌, Text,
}
use civ4_turn_relay.Domain.Libraries.{Libraries}
use civ4_turn_relay.Local.Records.Types.{
  MatchLocalRecords, PlaySessionBaseline, BaselineEntry, DownloadedSaveRecord,
  OutgoingCandidateRecord, outgoing_valid,
}
use civ4_turn_relay.Local.Detect.Observe.{hash_at, entry_hashes, downloaded_hash, excluded_hashes}

-- The test of a new candidate, by the records: its digest is none of those that were processed,
-- accepted or downloaded; its path stands in the baseline, or its digest does not; its size is within
-- the limit; and its constructor accepts it.
unfoldable pub is_path : List BaselineEntry → Text → Bool
is_path [] path = false
is_path (e ∷ es) path = text_eq e.path path || is_path es path

unfoldable pub is_digest : List BaselineEntry → Text → Bool
is_digest [] digest = false
is_digest (e ∷ es) digest = text_eq e.sha256 digest || is_digest es digest

unfoldable pub is_downloaded : Option DownloadedSaveRecord → Text → Bool
is_downloaded none digest = false
is_downloaded (some d) digest = text_eq d.sha256 digest

unfoldable pub is_new :
    Libraries
    → MatchLocalRecords
    → List Text
    → PlaySessionBaseline
    → ℕ
    → OutgoingCandidateRecord
    → Bool
is_new lib records accepted baseline max c =
    not (contains records.processed_outgoing_hashes c.sha256)
    && not (contains accepted c.sha256)
    && not (is_downloaded records.downloaded_save c.sha256)
    && (is_path baseline.entries c.path || not (is_digest baseline.entries c.sha256))
    && leb c.size_bytes max
    && outgoing_valid lib c

pub hash_at-is_path :
    (es : List BaselineEntry) (path : Text) → is_some (hash_at es path) ≡ is_path es path
unfolding hash_at is_path
hash_at-is_path [] path = refl
hash_at-is_path (e ∷ es) path = ground (arith, hash_at-is_path es path)

pub hashes-is_digest :
    (es : List BaselineEntry) (d : Text) → contains (entry_hashes es) d ≡ is_digest es d
unfolding entry_hashes is_digest contains
hashes-is_digest [] d = refl
hashes-is_digest (e ∷ es) d = ground (arith, hashes-is_digest es d)

contains-append :
    (xs ys : List Text) (d : Text) → contains (xs ++ ys) d ≡ contains xs d || contains ys d
unfolding contains
contains-append [] ys d = refl
contains-append (x ∷ xs) ys d = ground (arith, contains-append xs ys d)

downloaded-contains :
    (o : Option DownloadedSaveRecord) (d : Text)
    → contains (downloaded_hash o) d ≡ is_downloaded o d
unfolding contains is_downloaded
downloaded-contains none d = refl
downloaded-contains (some r) d = ground arith

pub contains-excluded :
    (records : MatchLocalRecords) (accepted : List Text) (d : Text)
    → contains (excluded_hashes records accepted) d
      ≡ contains records.processed_outgoing_hashes d
        || (contains accepted d || is_downloaded records.downloaded_save d)
unfolding excluded_hashes
contains-excluded records accepted d =
    rw
      (
        contains-append records.processed_outgoing_hashes
            (accepted ++ downloaded_hash records.downloaded_save) d,
        contains-append accepted (downloaded_hash records.downloaded_save) d,
        downloaded-contains records.downloaded_save d,
      )
      refl
