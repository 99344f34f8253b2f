-- ===== src/Protocol/Lock/Recorded.antt =====
-- protocol/lock.py: whoever takes the lock has a record of the handoff in the journal.
use civ4_turn_relay.Prelude.{
  ◌≡◌, ◌≢◌, inl, inr, refl, sym, subst, if◌then◌else◌, Bytes, Bool, true, false, Option, none, some,
  Text, List,
}
use civ4_turn_relay.Prelude.Dict.{lookup}
use civ4_turn_relay.Domain.Libraries.{Libraries}
use civ4_turn_relay.Storage.Port.{
  Storage, Op, Reply, ok, err, StorageEntry, already_exists, wrong_kind, capability,
}
use civ4_turn_relay.Protocol.Journal.{
  Journal, InProgressHandoff, begin_handoff, in_progress_handoff,
}
use civ4_turn_relay.Protocol.Paths.{upload_lock_dir, upload_lock_json}
use civ4_turn_relay.Protocol.Action.{
  World, Action, pure, lift, call, continue, changed, write_journal, read_journal, ◌>>=◌,
}
use civ4_turn_relay.Protocol.Action.Keeps.{
  Keeps, Keeps-pure, Keeps-bind, Keeps-ensure, Keeps-lift, Keeps-read_storage,
}
use civ4_turn_relay.Protocol.Lock.Document.{LockDocument, to_json_bytes}
use civ4_turn_relay.Protocol.Lock.Inspect
use civ4_turn_relay.Protocol.Lock.Inspect.{
  LockInspection, LockInspectionKind, inspect_upload_lock, after_list, after_read, observed,
}
use civ4_turn_relay.Protocol.Lock.Acquire.{
  capability_failure, transport_failure, LockRequest, progress_record, LockAcquireResult, acquired,
  resumed, refused, held_by, resume_decision, resume_readable, resume_kind, resume_inspected,
  resume_existing_lock, after_write, after_mkdir, make_lock, acquire_or_resume_upload_lock,
}
use civ4_turn_relay.Protocol.Lock.Progress.{
  IsOwn, IsRecorded, begun_lookup, built-IsRecord, decision-IsRecorded, in_progress_lem,
}

abbrev Journals : {S A : Type 0} → Action S A → Type 0
Journals {S = S} m = Keeps (λ (w : World S). w.journal) m

module _ {S A B : Type 0} where
  Journals-call :
      (operation : Op S A) (handler : Reply A → Action S B)
      → ((r : Reply A) → Journals (handler r))
      → Journals (call operation handler)
  unfolding call
  Journals-call operation handler k = record {
    same = λ w. (k (operation w.storage).0).same (record w { storage = (operation w.storage).1 });
  }

module _ {S : Type 0} (storage : Storage S) (lib : Libraries) (game_id : Text) where
  observed-Journals : (i : LockInspection) → Journals (observed storage lib game_id i)
  unfolding observed
  observed-Journals i = Keeps-bind _ _ (Keeps-ensure _) (λ _. Keeps-pure i)

  after_read-Journals : (r : Reply Bytes) → Journals (after_read storage lib game_id r)
  unfolding after_read
  after_read-Journals (ok raw) = Keeps-bind _ _ (Keeps-ensure _) (λ _. observed-Journals _)
  after_read-Journals (err wrong_kind) = Journals-call _ _ (λ r. observed-Journals _)
  after_read-Journals (err _) = observed-Journals _

  after_list-Journals :
      (r : Reply (List StorageEntry)) → Journals (after_list storage lib game_id r)
  unfolding after_list
  after_list-Journals (ok _) = Journals-call _ _ after_read-Journals
  after_list-Journals (err wrong_kind) = Journals-call _ _ (λ r. observed-Journals _)
  after_list-Journals (err _) = observed-Journals _

  inspect-Journals : Journals (inspect_upload_lock storage lib game_id)
  unfolding inspect_upload_lock
  inspect-Journals = Keeps-bind _ _ (Keeps-ensure _) (λ _. Journals-call _ _ after_list-Journals)

module _ {S : Type 0} (q : LockRequest) where
  -- From a journal of the match's own, the action ends as `IsRecorded` says.
  abbrev Records : Action S LockAcquireResult → Type 0
  Records m = (w : World S) → IsOwn q w.journal → IsRecorded q (m w).0 (m w).1.journal

  Records-bind :
      {A : Type 0} (m : Action S A) (f : A → Action S LockAcquireResult)
      → Journals m
      → ((a : A) → Records (f a))
      → Records (m >>= f)
  unfolding ◌>>=◌
  Records-bind {A = A} m f km kf w own = go (m w).0 (m w).1 (subst (IsOwn q) (sym (km.same w)) own)
    where
      go :
          (o : Option A) (w' : World S)
          → IsOwn q w'.journal
          → IsRecorded q (continue o f w').0 (continue o f w').1.journal
      go none w' own = tt
      go (some a) w' own = kf a w' own

  Records-refused :
      (r : LockAcquireResult) → (r.outcome ≢ acquired) × (r.outcome ≢ resumed) → Records (pure r)
  unfolding pure
  Records-refused r n w own = inl n

module _ {S : Type 0} (storage : Storage S) (lib : Libraries) (q : LockRequest) where
  resume_readable-Records : (d : Option LockDocument) → Records q (resume_readable storage lib q d)
  unfolding resume_readable read_journal lift ◌>>=◌ pure
  resume_readable-Records none w own = inl ((λ e. cc), (λ e. cc))
  resume_readable-Records (some d) w own =
      go (in_progress_handoff q.game_id w.journal) (λ p e. in_progress_lem q.game_id w.journal p e)
    where
      go :
          (o : Option (Option InProgressHandoff))
          → ((p : Option InProgressHandoff)
              → o ≡ some p
              → lookup q.game_id w.journal.in_progress ≡ p)
          → IsRecorded q
              (continue o (λ p. lift (resume_decision q d p)) w).0
              (continue o (λ p. lift (resume_decision q d p)) w).1.journal
      go none h = tt
      go (some p) h = decision-IsRecorded q d w.journal p (h p refl) own

  resume_kind-Records :
      (d : Option LockDocument) (k : LockInspectionKind) → Records q (resume_kind storage lib q d k)
  unfolding resume_kind
  resume_kind-Records d Inspect.transport_failure = Records-refused q _ ((λ e. cc), (λ e. cc))
  resume_kind-Records d Inspect.readable = resume_readable-Records d
  resume_kind-Records d _ = Records-refused q _ ((λ e. cc), (λ e. cc))

  resume-Records : Records q (resume_existing_lock storage lib q)
  unfolding resume_existing_lock resume_inspected
  resume-Records =
      Records-bind q _ _ (inspect-Journals storage lib q.game_id)
        (λ i. resume_kind-Records i.document i.kind)

  after_write-Records :
      (d : LockDocument) (r : Reply (Unit {0})) → Records q (after_write storage lib q d r)
  unfolding after_write write_journal pure ◌>>=◌
  after_write-Records d (ok u) w own =
      go (begin_handoff (progress_record q) w.journal) (λ j e. begun_lookup q w.journal j e)
    where
      go :
          (o : Option Journal)
          → ((j : Journal) → o ≡ some j → lookup q.game_id j.in_progress ≡ some (progress_record q))
          → IsRecorded q
              (continue (changed w o).0 (λ _. pure (held_by acquired d true)) (changed w o).1).0
              (continue
                (changed w o).0
                (λ _. pure (held_by acquired d true))
                (changed w o).1).1.journal
      go none h = tt
      go (some j) h = inr (progress_record q, h j refl, built-IsRecord q)
  after_write-Records d (err e) w own = go (begin_handoff (progress_record q) w.journal)
    where
      go :
          (o : Option Journal)
          → IsRecorded q
              (continue (changed w o).0 (λ _. pure (refused transport_failure)) (changed w o).1).0
              (continue
                (changed w o).0
                (λ _. pure (refused transport_failure))
                (changed w o).1).1.journal
      go none = tt
      go (some j) = inl ((λ e. cc), (λ e. cc))

  after_mkdir-Records :
      (d : LockDocument) (r : Reply (Unit {0})) → Records q (after_mkdir storage lib q d r)
  unfolding after_mkdir call pure
  after_mkdir-Records d (ok u) w own =
      let (r, s) =
        storage.write_file (upload_lock_json q.game_id) (to_json_bytes lib d) false w.storage in
      after_write-Records d r (record w { storage = s }) own
  after_mkdir-Records d (err capability) w own = inl ((λ e. cc), (λ e. cc))
  after_mkdir-Records d (err already_exists) w own = resume-Records w own
  after_mkdir-Records d (err wrong_kind) w own = inl ((λ e. cc), (λ e. cc))
  after_mkdir-Records d (err _) w own = inl ((λ e. cc), (λ e. cc))

  made-Records :
      (d : LockDocument)
      → Records q (call (storage.mkdir (upload_lock_dir q.game_id)) (after_mkdir storage lib q d))
  unfolding call
  made-Records d w own =
      let (r, s) = storage.mkdir (upload_lock_dir q.game_id) w.storage in
      after_mkdir-Records d r (record w { storage = s }) own

  make_lock-Records : Records q (make_lock storage lib q)
  unfolding make_lock
  make_lock-Records = Records-bind q _ _ (Keeps-lift _) made-Records

  choice-Records :
      (b : Bool)
      → Records q (if b then make_lock storage lib q else pure (refused capability_failure))
  choice-Records true = make_lock-Records
  choice-Records false = Records-refused q _ ((λ e. cc), (λ e. cc))

  -- From a journal that has no record of another match under this one's name, whoever acquires or
  -- resumes the lock has a record of the caller's operation in the journal.
  pub acquire-IsRecorded :
      (w : World S)
      → IsOwn q w.journal
      → IsRecorded q
          (acquire_or_resume_upload_lock storage lib q w).0
          (acquire_or_resume_upload_lock storage lib q w).1.journal
  unfolding acquire_or_resume_upload_lock
  acquire-IsRecorded =
      Records-bind q _ _ (Keeps-ensure _)
        (λ _. Records-bind q _ _ (Keeps-read_storage _) choice-Records)
