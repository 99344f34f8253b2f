-- ===== src/Local/Journal/Agreed.antt =====
-- local/journal.py: what each mutator does to valid records that agree with the in-memory journal.
use civ4_turn_relay.Prelude.{
  ◌≡◌, subst, true, ◌||◌, ◌++◌, some, List, [], ◌∷◌, Text, text_eq, text_eq_iff, contains, arith,
}
use civ4_turn_relay.Prelude.Dict.{lookup, insert, remove, lookup-insert, lookup-remove}
use civ4_turn_relay.Domain.Libraries.{Libraries}
use civ4_turn_relay.Protocol.Journal.{Journal, InProgressHandoff, has_pair, in_progress_valid}
use civ4_turn_relay.Local.Records.Types.{MatchLocalRecords, records_valid, records_post_init}
use civ4_turn_relay.Local.Journal.{
  Disk, replaced, with_hash, begin_mutator, clear_mutator, attempt_mutator, acceptance_mutator,
}

-- Both journals know the same of the match.
pub record IsAgreed (game_id : Text) (r : MatchLocalRecords) (j : Journal) : Type 0 where
  pub attempts : (h : Text) → contains r.attempted_handoff_hashes h ≡ has_pair game_id h j.attempts
  pub acceptances :
      (h : Text)
      → contains r.historically_accepted_hashes h ≡ has_pair game_id h j.historical_acceptances
  pub progress : r.in_progress_handoff ≡ lookup game_id j.in_progress

pub contains-append :
    (xs : List Text) (d h : Text) → contains (xs ++ d ∷ []) h ≡ (text_eq d h || contains xs h)
unfolding contains
contains-append [] d h = ground arith
contains-append (x ∷ xs) d h = ground (arith, contains-append xs d h)

contains-with_hash :
    (xs : List Text) (d h : Text) → contains (with_hash xs d) h ≡ (text_eq d h || contains xs h)
unfolding with_hash
contains-with_hash xs d h = ground (arith, contains-append xs d h, text_eq_iff d h)

replaced_lem :
    (x r : MatchLocalRecords) → replaced x ≡ some r → (x ≡ r) × (records_post_init x ≡ true)
unfolding replaced
replaced_lem x r h = ground arith

module _ (lib : Libraries) (disk : Disk) (game_id : Text) where
  pub begun :
      (p : InProgressHandoff) (r s : MatchLocalRecords) (j : Journal)
      → IsAgreed game_id r j
      → p.game_id ≡ game_id
      → begin_mutator lib disk game_id p r ≡ some s
      → IsAgreed game_id s (record j {
        in_progress = insert p.game_id p j.in_progress;
        attempts = (p.game_id, p.sha256) ∷ j.attempts;
      })
  unfolding begin_mutator has_pair replaced
  begun p r s j a own m = record {
    attempts = λ h. grind (
      arith,
      contains-with_hash r.attempted_handoff_hashes p.sha256 h,
      a.attempts h,
      text_eq_iff p.game_id game_id,
    );
    acceptances = λ h. grind (arith, a.acceptances h);
    progress =
        grind
          (arith, lookup-insert p.game_id game_id p j.in_progress, text_eq_iff p.game_id game_id);
  }

  pub begun-valid :
      (p : InProgressHandoff) (r s : MatchLocalRecords)
      → records_valid lib r ≡ true
      → in_progress_valid p ≡ true
      → begin_mutator lib disk game_id p r ≡ some s
      → records_valid lib s ≡ true
  unfolding begin_mutator records_valid
  begun-valid p r s v q m =
      let (e, w) = replaced_lem _ s m in
      subst (λ x. records_valid lib x ≡ true) e (ground (arith, w))

  pub cleared :
      (r s : MatchLocalRecords) (j : Journal)
      → IsAgreed game_id r j
      → clear_mutator lib disk game_id r ≡ some s
      → IsAgreed game_id s (record j { in_progress = remove game_id j.in_progress })
  unfolding clear_mutator replaced
  cleared r s j a m = record {
    attempts = λ h. grind (arith, a.attempts h);
    acceptances = λ h. grind (arith, a.acceptances h);
    progress = grind (
      arith,
      lookup-remove game_id game_id j.in_progress,
      text_eq_iff game_id game_id,
      a.progress,
    );
  }

  pub attempted :
      (d : Text) (r s : MatchLocalRecords) (j : Journal)
      → IsAgreed game_id r j
      → attempt_mutator lib disk game_id d r ≡ some s
      → IsAgreed game_id s (record j { attempts = (game_id, d) ∷ j.attempts })
  unfolding attempt_mutator has_pair replaced
  attempted d r s j a m = record {
    attempts = λ h. grind (
      arith,
      contains-with_hash r.attempted_handoff_hashes d h,
      a.attempts h,
      text_eq_iff d h,
      text_eq_iff game_id game_id,
    );
    acceptances = λ h. grind (arith, a.acceptances h);
    progress = grind (arith, a.progress);
  }

  pub accepted :
      (d : Text) (r s : MatchLocalRecords) (j : Journal)
      → IsAgreed game_id r j
      → acceptance_mutator lib disk game_id d r ≡ some s
      → IsAgreed game_id s
          (record j { historical_acceptances = (game_id, d) ∷ j.historical_acceptances })
  unfolding acceptance_mutator has_pair replaced
  accepted d r s j a m = record {
    attempts = λ h. grind (arith, a.attempts h);
    acceptances = λ h. grind (
      arith,
      contains-with_hash r.historically_accepted_hashes d h,
      a.acceptances h,
      text_eq_iff d h,
      text_eq_iff game_id game_id,
    );
    progress = grind (arith, a.progress);
  }

  pub cleared-valid :
      (r s : MatchLocalRecords)
      → records_valid lib r ≡ true
      → clear_mutator lib disk game_id r ≡ some s
      → records_valid lib s ≡ true
  unfolding clear_mutator records_valid replaced
  cleared-valid r s v m = grind arith

  pub attempted-valid :
      (d : Text) (r s : MatchLocalRecords)
      → records_valid lib r ≡ true
      → attempt_mutator lib disk game_id d r ≡ some s
      → records_valid lib s ≡ true
  unfolding attempt_mutator records_valid replaced
  attempted-valid d r s v m = grind arith

  pub accepted-valid :
      (d : Text) (r s : MatchLocalRecords)
      → records_valid lib r ≡ true
      → acceptance_mutator lib disk game_id d r ≡ some s
      → records_valid lib s ≡ true
  unfolding acceptance_mutator records_valid replaced
  accepted-valid d r s v m = grind arith
