-- ===== src/Protocol/Lock/Progress.antt =====
-- protocol/lock.py: the journal's record of the handoff in progress, and what it lets resume.
use civ4_turn_relay.Prelude.{
  ◌≡◌, ◌≢◌, ◌⊎◌, inl, inr, refl, true, Option, none, some, Text, text_eq_iff, Bool-cases, arith,
}
use civ4_turn_relay.Prelude.Dict.{lookup, lookup-insert}
use civ4_turn_relay.Protocol.Journal
use civ4_turn_relay.Protocol.Journal.{
  Journal, InProgressHandoff, begin_handoff, in_progress_handoff,
}
use civ4_turn_relay.Protocol.Action.{World, Action}
use civ4_turn_relay.Protocol.Lock.Document.{LockDocument}
use civ4_turn_relay.Protocol.Lock.Acquire.{
  LockRequest, progress_record, progress_agrees, LockAcquireResult, acquired, resumed,
  resume_decision,
}

-- The record is of the caller's operation: game, operation, client, player and digest; like every record
-- that begins a handoff it names no sequence.
pub record IsRecord (q : LockRequest) (p : InProgressHandoff) : Type 0 where
  pub game : p.game_id ≡ q.game_id
  pub operation : p.operation_id ≡ q.owner.operation_id
  pub client : p.client_id ≡ q.owner.client_id
  pub player : p.player_id ≡ q.owner.player_id
  pub digest : p.sha256 ≡ q.sha256
  pub unknown : p.protocol_sequence ≡ none

-- A raise, a lock that is not taken, or a record of the caller's operation.
abbrev pub IsRecorded : LockRequest → Option LockAcquireResult → Journal → Type 0
IsRecorded q none j = Unit
IsRecorded q (some r) j =
    ((r.outcome ≢ acquired) × (r.outcome ≢ resumed))
    ⊎ ((p : InProgressHandoff) × (lookup q.game_id j.in_progress ≡ some p) × (IsRecord q p))

-- What the journal has of the match before names the match, and no sequence.
abbrev pub IsOwn : LockRequest → Journal → Type 0
IsOwn q j =
    (lookup q.game_id j.in_progress ≡ none)
    ⊎ ((p : InProgressHandoff) × (lookup q.game_id j.in_progress ≡ some p)
        × (p.game_id ≡ q.game_id)
        × (p.protocol_sequence ≡ none))

pub begun_lookup :
    (q : LockRequest) (j k : Journal)
    → begin_handoff (progress_record q) j ≡ some k
    → lookup q.game_id k.in_progress ≡ some (progress_record q)
unfolding begin_handoff Journal.record_handoff_attempt progress_record
begun_lookup q j k h = ground (
  arith,
  lookup-insert q.game_id q.game_id (progress_record q) j.in_progress,
  text_eq_iff q.game_id q.game_id,
)

pub built-IsRecord : (q : LockRequest) → IsRecord q (progress_record q)
unfolding progress_record
built-IsRecord q = record {
  game = refl;
  operation = refl;
  client = refl;
  player = refl;
  digest = refl;
  unknown = refl;
}

agreed :
    (q : LockRequest) (p : InProgressHandoff)
    → progress_agrees p q ≡ true
    → p.game_id ≡ q.game_id
    → p.protocol_sequence ≡ none
    → IsRecord q p
unfolding progress_agrees
agreed q p h game unknown = record {
  game = game;
  operation = ground (arith, text_eq_iff p.operation_id q.owner.operation_id);
  client = ground (arith, text_eq_iff p.client_id q.owner.client_id);
  player = ground (arith, text_eq_iff p.player_id q.owner.player_id);
  digest = ground (arith, text_eq_iff p.sha256 q.sha256);
  unknown = unknown;
}

-- The decision to resume stands on a record that agrees.
decided :
    (q : LockRequest) (d : LockDocument) (p : InProgressHandoff) (r : LockAcquireResult)
    → resume_decision q d (some p) ≡ some r
    → ((r.outcome ≢ acquired) × (r.outcome ≢ resumed)) ⊎ (progress_agrees p q ≡ true)
unfolding resume_decision
decided q d p r h = elim (Bool-cases (progress_agrees p q)) [
  | inl a ↦ inr a
  | inr n ↦ inl ((λ e. ground arith), (λ e. ground arith))
]

undecided :
    (q : LockRequest) (d : LockDocument) (r : LockAcquireResult)
    → resume_decision q d none ≡ some r
    → (r.outcome ≢ acquired) × (r.outcome ≢ resumed)
unfolding resume_decision
undecided q d r h = ((λ e. ground arith), (λ e. ground arith))

-- The action leaves the journal as it was.
abbrev Quiet : {S A : Type 0} → Action S A → Type 0
Quiet {S = S} m = (w : World S) → (m w).1.journal ≡ w.journal

-- A result is a raise, or each result is shown to be recorded.
IsRecorded-some :
    (q : LockRequest) (o : Option LockAcquireResult) (j : Journal)
    → ((r : LockAcquireResult) → o ≡ some r → IsRecorded q (some r) j)
    → IsRecorded q o j
IsRecorded-some q none j h = tt
IsRecorded-some q (some r) j h = h r refl

pub in_progress_lem :
    (game_id : Text) (j : Journal) (p : Option InProgressHandoff)
    → in_progress_handoff game_id j ≡ some p
    → lookup game_id j.in_progress ≡ p
unfolding in_progress_handoff
in_progress_lem game_id j p h = ground arith

-- The decision over what the journal has of the match.
pub decision-IsRecorded :
    (q : LockRequest) (d : LockDocument) (j : Journal) (o : Option InProgressHandoff)
    → lookup q.game_id j.in_progress ≡ o
    → IsOwn q j
    → IsRecorded q (resume_decision q d o) j
decision-IsRecorded q d j none l own =
    IsRecorded-some q (resume_decision q d none) j (λ r e. inl (undecided q d r e))
decision-IsRecorded q d j (some p) l (inl free) = absurd_none l free
  where
    absurd_none :
        lookup q.game_id j.in_progress ≡ some p
        → lookup q.game_id j.in_progress ≡ none
        → IsRecorded q (resume_decision q d (some p)) j
    absurd_none l free = ground arith
decision-IsRecorded q d j (some p) l (inr (p', l', game, unknown)) =
    IsRecorded-some q (resume_decision q d (some p)) j (λ r e. elim (decided q d p r e) [
      | inl n ↦ inl n
      | inr a ↦ inr (p, l, agreed q p a (ground arith) (ground arith))
    ])
