-- ===== src/Local/Journal/Returns.antt =====
-- local/journal.py: the mutators return on valid records.
use civ4_turn_relay.Prelude.{
  ◌≡◌, refl, Bool, true, false, ◌&&◌, Bool-cases, inl, inr, Option-cases, ◌++◌, Option, some, List,
  [], ◌∷◌, Text, text_eq, text_eq_iff, contains, arith,
}
use civ4_turn_relay.Domain.Libraries.{Libraries}
use civ4_turn_relay.Domain.Ids.{validate_sha256_hex}
use civ4_turn_relay.Domain.Paths.{all_of}
use civ4_turn_relay.Domain.Manifest.{all_distinct}
use civ4_turn_relay.Protocol.Journal.{InProgressHandoff, in_progress_valid}
use civ4_turn_relay.Local.Records.Types.{
  MatchLocalRecords, records_valid, records_post_init, digests_valid,
}
use civ4_turn_relay.Local.Journal.{
  Disk, replaced, with_hash, begin_mutator, clear_mutator, attempt_mutator, acceptance_mutator,
}
use civ4_turn_relay.Local.Journal.Agreed.{contains-append}

replaced-some : (x : MatchLocalRecords) → records_post_init x ≡ true → replaced x ≡ some x
unfolding replaced
replaced-some x h = ground arith

all_of-append :
    (f : Text → Bool) (xs : List Text) (d : Text) → all_of f (xs ++ d ∷ []) ≡ (all_of f xs && f d)
unfolding all_of
all_of-append f [] d = ground arith
all_of-append f (x ∷ xs) d = ground (arith, all_of-append f xs d)

all_distinct-append :
    (xs : List Text) (d : Text)
    → all_distinct xs ≡ true
    → contains xs d ≡ false
    → all_distinct (xs ++ d ∷ []) ≡ true
unfolding all_distinct contains
all_distinct-append [] d h n = ground arith
all_distinct-append (x ∷ xs) d h n =
    ground
      (arith, all_distinct-append xs d, contains-append xs d x, text_eq_iff x d, text_eq_iff d x)

digests-with_hash :
    (xs : List Text) (d : Text)
    → digests_valid xs ≡ true
    → validate_sha256_hex d ≡ true
    → digests_valid (with_hash xs d) ≡ true
unfolding with_hash digests_valid
digests-with_hash xs d h v =
    ground (arith, all_of-append validate_sha256_hex xs d, all_distinct-append xs d)

module _ (lib : Libraries) (disk : Disk) (game_id : Text) where
  -- The mutator returns records of the same match.
  abbrev pub Returns : MatchLocalRecords → (MatchLocalRecords → Option MatchLocalRecords) → Type 0
  Returns r mutator = (s : MatchLocalRecords) × (mutator r ≡ some s) × (s.game_id ≡ r.game_id)

  post-begun :
      (p : InProgressHandoff) (r : MatchLocalRecords) (hashes : List Text)
      → records_post_init r ≡ true
      → digests_valid hashes ≡ true
      → text_eq p.game_id r.game_id ≡ true
      → records_post_init
          (record r { in_progress_handoff = some p; attempted_handoff_hashes = hashes })
        ≡ true
  unfolding records_post_init
  post-begun p r hashes v d own = ground arith

  attempts-valid :
      (r : MatchLocalRecords)
      → records_post_init r ≡ true
      → digests_valid r.attempted_handoff_hashes ≡ true
  unfolding records_post_init
  attempts-valid r v = ground arith

  sha256-valid :
      (p : InProgressHandoff) → in_progress_valid p ≡ true → validate_sha256_hex p.sha256 ≡ true
  unfolding in_progress_valid
  sha256-valid p q = ground arith

  post-valid : (r : MatchLocalRecords) → records_valid lib r ≡ true → records_post_init r ≡ true
  unfolding records_valid
  post-valid r v = ground arith

  pub begin-Returns :
      (p : InProgressHandoff) (r : MatchLocalRecords)
      → records_valid lib r ≡ true
      → in_progress_valid p ≡ true
      → p.game_id ≡ r.game_id
      → Returns r (begin_mutator lib disk game_id p)
  unfolding begin_mutator
  begin-Returns p r v q own = (
    _,
    replaced-some _ (
        post-begun p r (with_hash r.attempted_handoff_hashes p.sha256) (post-valid r v)
          (digests-with_hash r.attempted_handoff_hashes p.sha256 (attempts-valid r (post-valid r v))
            (sha256-valid p q))
          ((text_eq_iff p.game_id r.game_id).1 own)),
    refl,
  )

  pub clear-Returns :
      (r : MatchLocalRecords)
      → records_valid lib r ≡ true
      → Returns r (clear_mutator lib disk game_id)
  unfolding clear_mutator records_valid records_post_init
  clear-Returns r v = elim (Option-cases r.in_progress_handoff) [
    | inl n ↦ (r, ground arith, refl)
    | inr (p, e) ↦ rw e (_, replaced-some _ (ground arith), refl)
  ]

  pub attempt-Returns :
      (d : Text) (r : MatchLocalRecords)
      → records_valid lib r ≡ true
      → validate_sha256_hex d ≡ true
      → Returns r (attempt_mutator lib disk game_id d)
  unfolding attempt_mutator records_valid records_post_init
  attempt-Returns d r v h = elim (Bool-cases (contains r.attempted_handoff_hashes d)) [
    | inl k ↦ rw k (r, refl, refl)
    | inr n ↦
        rw n (
          _,
          replaced-some _ (ground (arith, digests-with_hash r.attempted_handoff_hashes d)),
          refl,
        )
  ]

  pub acceptance-Returns :
      (d : Text) (r : MatchLocalRecords)
      → records_valid lib r ≡ true
      → validate_sha256_hex d ≡ true
      → Returns r (acceptance_mutator lib disk game_id d)
  unfolding acceptance_mutator records_valid records_post_init
  acceptance-Returns d r v h = elim (Bool-cases (contains r.historically_accepted_hashes d)) [
    | inl k ↦ rw k (r, refl, refl)
    | inr n ↦ rw n (
      _,
      replaced-some _ (ground (arith, digests-with_hash r.historically_accepted_hashes d)),
      refl,
    )
  ]
