-- ===== src/Local/Journal/Refines.antt =====
-- local/journal.py: the durable journal keeps what the in-memory journal keeps.
use civ4_turn_relay.Prelude.{
  ◌≡◌, refl, ◌∙◌, ◌⊎◌, inl, inr, Bool, Bool-cases, true, false, Option, none, some, ◌∷◌, Text,
  Bytes, text_eq, text_eq_iff, arith,
}
use civ4_turn_relay.Prelude.Dict.{remove}
use civ4_turn_relay.Domain.Libraries.{Libraries, JsonReadsBack}
use civ4_turn_relay.Protocol.Journal
use civ4_turn_relay.Protocol.Journal.{Journal, InProgressHandoff, has_pair, in_progress_valid}
use civ4_turn_relay.Local.Records.Types.{MatchLocalRecords, records_valid, records_post_init}
use civ4_turn_relay.Local.Records.Mappings.{to_json_bytes}
use civ4_turn_relay.Local.Records.Json.{records-from_json_bytes}
use civ4_turn_relay.Domain.Ids.{validate_game_id}
use civ4_turn_relay.Local.Journal.Agreed.{
  IsAgreed, begun, begun-valid, cleared, cleared-valid, attempted, attempted-valid, accepted,
  accepted-valid,
}
use civ4_turn_relay.Local.Journal.Returns.{
  Returns, begin-Returns, clear-Returns, attempt-Returns, acceptance-Returns,
}
use civ4_turn_relay.Local.Journal.{
  Disk, empty_records, of_match, load_match_state_or_empty, write_match_state, after_mutator,
  after_load, update_match_state, require_game_id, guarded_update, begin_handoff, clear_in_progress,
  record_handoff_attempt, record_historical_acceptance,
}

-- The file holds the records, or is missing and the records are empty.
pub record IsStored (lib : Libraries) (game_id : Text) (file : Option Bytes) (r : MatchLocalRecords)
    : Type 0 where
  pub valid : records_valid lib r ≡ true
  pub own : r.game_id ≡ game_id
  pub content : ((file ≡ none) × (r ≡ empty_records game_id)) ⊎ (file ≡ some (to_json_bytes lib r))

-- A call that changes the journal, on its arguments.
pub data Call : Type 0 where
  begin_call : InProgressHandoff → Call
  clear_call : Text → Call
  attempt_call acceptance_call : Text → Text → Call

-- The call on the durable journal of a match, and on the in-memory journal.
unfoldable pub durable :
    Libraries → Disk → Text → Call → Option Bytes → Option MatchLocalRecords × Option Bytes
durable lib disk game_id (begin_call p) = begin_handoff lib disk game_id p
durable lib disk game_id (clear_call g) = clear_in_progress lib disk game_id g
durable lib disk game_id (attempt_call g d) = record_handoff_attempt lib disk game_id g d
durable lib disk game_id (acceptance_call g d) = record_historical_acceptance lib disk game_id g d

unfoldable pub in_memory : Call → Journal → Option Journal
in_memory (begin_call p) = Journal.begin_handoff p
in_memory (clear_call g) = Journal.clear_in_progress g
in_memory (attempt_call g d) = Journal.record_handoff_attempt g d
in_memory (acceptance_call g d) = Journal.record_historical_acceptance g d

-- The match that a call is about.
unfoldable pub game_of : Call → Text
game_of (begin_call p) = p.game_id
game_of (clear_call g) = g
game_of (attempt_call g d) = g
game_of (acceptance_call g d) = g

-- The disk fails.
abbrev pub IsFailed : Disk → Type 0
IsFailed disk = (disk.is_readable ≡ false) ⊎ (disk.is_replaced ≡ false)

-- Both journals did the call and agree again; or the call raised and left the file alone, as the disk
-- fails, the call is about another match, or the in-memory journal raises too.
abbrev pub IsRefined :
    Libraries
    → Disk
    → Text
    → Call
    → Option Bytes
    → Option MatchLocalRecords × Option Bytes
    → Option Journal
    → Type 0
IsRefined lib disk game_id call file o memory =
    ((o ≡ (none, file))
      × ((IsFailed disk) ⊎ ((text_eq (game_of call) game_id ≡ false) ⊎ (memory ≡ none))))
    ⊎ ((s : MatchLocalRecords) × ((k : Journal) × (o ≡ (some s, some (to_json_bytes lib s)))
          × (memory ≡ some k)
          × (IsStored lib game_id (some (to_json_bytes lib s)) s)
          × (IsAgreed game_id s k)))

valid-game_id :
    (lib : Libraries) (r : MatchLocalRecords)
    → records_valid lib r ≡ true
    → validate_game_id r.game_id ≡ true
unfolding records_valid records_post_init
valid-game_id lib r v = ground arith

module _ (lib : Libraries) (back : JsonReadsBack lib) (disk : Disk) (game_id : Text) where
  -- A missing file needs no read.
  load-stored :
      (file : Option Bytes) (r : MatchLocalRecords)
      → IsStored lib game_id file r
      → (load_match_state_or_empty lib disk game_id file ≡ some r)
        ⊎ ((load_match_state_or_empty lib disk game_id file ≡ none) × (disk.is_readable ≡ false))
  unfolding load_match_state_or_empty of_match
  load-stored none r i = elim i.content [
    | inl (e, f) ↦ inl (ground (arith, valid-game_id lib r i.valid, i.own))
    | inr e ↦ ground arith
  ]
  load-stored (some c) r i = elim i.content [
    | inl (e, f) ↦ ground arith
    | inr e ↦ elim (Bool-cases disk.is_readable) [
      | inl d ↦ inl (
          ground (
            arith,
            records-from_json_bytes lib r back i.valid,
            valid-game_id lib r i.valid,
            text_eq_iff r.game_id game_id,
            i.own,
          ))
      | inr n ↦ inr (ground arith, n)
    ]
  ]

  -- A mutator that returns `s` is written, unless the disk fails.
  abbrev IsUpdate :
      Option Bytes → MatchLocalRecords → Option MatchLocalRecords × Option Bytes → Type 0
  IsUpdate file s o =
      ((o ≡ (none, file)) × (IsFailed disk)) ⊎ (o ≡ (some s, some (to_json_bytes lib s)))

  mutated-IsUpdate :
      (file : Option Bytes) (r s : MatchLocalRecords)
      → s.game_id ≡ r.game_id
      → IsUpdate file s (after_mutator lib disk game_id file r (some s))
  unfolding after_mutator write_match_state
  mutated-IsUpdate file r s e =
      rw ((text_eq_iff s.game_id r.game_id).1 e) (elim (Bool-cases disk.is_replaced) [
        | inr n ↦ rw n (inl (refl, inr refl))
        | inl d ↦ rw d (inr refl)
      ])

  updated-IsUpdate :
      (file : Option Bytes) (r s : MatchLocalRecords)
      (mutator : MatchLocalRecords → Option MatchLocalRecords)
      → IsStored lib game_id file r
      → mutator r ≡ some s
      → s.game_id ≡ r.game_id
      → IsUpdate file s (update_match_state lib disk game_id mutator file)
  unfolding update_match_state after_load
  updated-IsUpdate file r s mutator i m g = elim (load-stored file r i) [
    | inl e ↦ rw (e, m) (mutated-IsUpdate file r s g)
    | inr (e, n) ↦ rw e (inl (refl, inl n))
  ]

  -- A guarded call, from what its mutator does to valid records.
  guarded-IsRefined :
      (call : Call) (ok : Bool) (file : Option Bytes) (r : MatchLocalRecords) (k : Journal)
      (memory : Option Journal) (mutator : MatchLocalRecords → Option MatchLocalRecords)
      → IsStored lib game_id file r
      → (ok ≡ false → (text_eq (game_of call) game_id ≡ false) ⊎ (memory ≡ none))
      → (ok ≡ true → memory ≡ some k)
      → (ok ≡ true → Returns lib disk game_id r mutator)
      → ((s : MatchLocalRecords) → ok ≡ true → mutator r ≡ some s → records_valid lib s ≡ true)
      → ((s : MatchLocalRecords) → ok ≡ true → mutator r ≡ some s → IsAgreed game_id s k)
      → IsRefined lib disk game_id call file
          (guarded_update lib disk game_id ok mutator file)
          memory
  unfolding guarded_update
  guarded-IsRefined call false file r k memory mutator i re me t v a = inl (refl, inr (re refl))
  guarded-IsRefined call true file r k memory mutator i re me t v a =
      let (s, m, g) = t refl in
      elim (updated-IsUpdate file r s mutator i m g) [
        | inl (e, f) ↦ inl (e, inl f)
        | inr e ↦ inr (
          s,
          (
            k,
            e,
            me refl,
            record { valid = v s refl m; own = g ∙ i.own; content = inr refl },
            a s refl m,
          ),
        )
      ]

  -- The durable journal does what the in-memory one does, where `json.loads` reads back what
  -- `json.dumps` wrote: from a file that holds valid records which agree with the in-memory journal on
  -- this match, both journals do a call that changes them, the file holds the valid records of its
  -- result and both agree again; or the call raises and leaves the file as it was, which happens only
  -- where the disk fails, the call is about another match or the in-memory journal raises too.
  pub journal-IsRefined :
      (call : Call) (file : Option Bytes) (r : MatchLocalRecords) (j : Journal)
      → IsStored lib game_id file r
      → IsAgreed game_id r j
      → IsRefined lib disk game_id call file (durable lib disk game_id call file) (in_memory call j)
  unfolding durable in_memory begin_handoff clear_in_progress record_handoff_attempt
      record_historical_acceptance require_game_id Journal.begin_handoff Journal.clear_in_progress
      Journal.record_handoff_attempt Journal.record_historical_acceptance Journal.hash_key_valid
      in_progress_valid game_of
  journal-IsRefined (begin_call p) file r j i a =
      guarded-IsRefined (begin_call p) _ file r _ _ _ i (λ no. ground arith) (λ ok. ground arith)
        (λ ok.
          begin-Returns lib disk game_id p r i.valid (ground arith)
            (ground (arith, text_eq_iff p.game_id game_id, i.own)))
        (λ s ok m. begun-valid lib disk game_id p r s i.valid (ground arith) m)
        (λ s ok m.
          begun lib disk game_id p r s j a (ground (arith, text_eq_iff p.game_id game_id)) m)
  journal-IsRefined (clear_call g) file r j i a =
      guarded-IsRefined (clear_call g) _ file r
        (record j { in_progress = remove game_id j.in_progress }) _ _ i (λ no. ground arith)
        (λ ok. ground (arith, text_eq_iff g game_id))
        (λ ok. clear-Returns lib disk game_id r i.valid)
        (λ s ok m. cleared-valid lib disk game_id r s i.valid m)
        (λ s ok m. cleared lib disk game_id r s j a m)
  journal-IsRefined (attempt_call g d) file r j i a =
      guarded-IsRefined (attempt_call g d) _ file r
        (record j { attempts = (game_id, d) ∷ j.attempts }) _ _ i (λ no. ground arith)
        (λ ok. ground (arith, text_eq_iff g game_id))
        (λ ok. attempt-Returns lib disk game_id d r i.valid (ground arith))
        (λ s ok m. attempted-valid lib disk game_id d r s i.valid m)
        (λ s ok m. attempted lib disk game_id d r s j a m)
  journal-IsRefined (acceptance_call g d) file r j i a =
      guarded-IsRefined (acceptance_call g d) _ file r
        (record j { historical_acceptances = (game_id, d) ∷ j.historical_acceptances }) _ _ i
        (λ no. ground arith) (λ ok. ground (arith, text_eq_iff g game_id))
        (λ ok. acceptance-Returns lib disk game_id d r i.valid (ground arith))
        (λ s ok m. accepted-valid lib disk game_id d r s i.valid m)
        (λ s ok m. accepted lib disk game_id d r s j a m)
