-- ===== src/Protocol/Lock/Exclusive.antt =====
-- protocol/lock.py: `acquire_or_resume_upload_lock` acquires a free lock only.
use civ4_turn_relay.Prelude.{
  ◌≡◌, ◌≢◌, ◌⊎◌, inl, inr, refl, ◌∙◌, true, false, Option, none, some, arith,
}
use civ4_turn_relay.Domain.Libraries.{Libraries}
use civ4_turn_relay.Storage.Port.{Storage, Reply, ok, err, already_exists, wrong_kind, capability}
use civ4_turn_relay.Storage.Laws.{StorageLaws}
use civ4_turn_relay.Protocol.Journal.{Journal, InProgressHandoff, begin_handoff}
use civ4_turn_relay.Protocol.Paths.{upload_lock_dir, upload_lock_json}
use civ4_turn_relay.Protocol.Action.{
  World, Action, pure, lift, call, continue, changed, write_journal, ◌>>=◌,
}
use civ4_turn_relay.Protocol.Action.Keeps.{Keeps-ensure, Keeps-read_storage}
use civ4_turn_relay.Protocol.Action.Ensures.{
  Ensures, Ensures-pure, Ensures-bind, Ensures-lift, Ensures-if,
}
use civ4_turn_relay.Domain.Ids.{add_utc_seconds}
use civ4_turn_relay.Protocol.Lock.Document.{LockDocument, to_json_bytes, build_lock_document}
use civ4_turn_relay.Protocol.Lock.Inspect
use civ4_turn_relay.Protocol.Lock.Inspect.{LockInspectionKind}
use civ4_turn_relay.Protocol.Lock.Acquire.{
  transport_failure, LockRequest, progress_record, LockAcquireResult, acquired, refused, held_by,
  resume_decision, resume_readable, resume_kind, resume_inspected, resume_existing_lock,
  after_write, after_mkdir, make_lock, acquire_or_resume_upload_lock,
}

-- A raise, or another outcome than an acquisition.
abbrev IsOther : Option LockAcquireResult → Type 0
IsOther none = Unit
IsOther (some r) = r.outcome ≢ acquired

IsOther-some :
    (o : Option LockAcquireResult)
    → ((r : LockAcquireResult) → o ≡ some r → r.outcome ≢ acquired)
    → IsOther o
IsOther-some none h = tt
IsOther-some (some r) h = h r refl

resume_decision-ne :
    (q : LockRequest) (d : LockDocument) (p : Option InProgressHandoff) (r : LockAcquireResult)
    → resume_decision q d p ≡ some r
    → r.outcome ≢ acquired
unfolding resume_decision
resume_decision-ne q d p r h e = ground arith

-- The document names the caller's operation, client and player, and the time of the call; it expires
-- 15 minutes later.
pub record IsOfCaller (lib : Libraries) (q : LockRequest) (d : LockDocument) : Type 0 where
  pub operation : d.operation_id ≡ q.owner.operation_id
  pub client : d.client_id ≡ q.owner.client_id
  pub player : d.player_id ≡ q.owner.player_id
  pub created : d.created_at ≡ q.now_utc
  pub expires : add_utc_seconds lib q.now_utc 900 ≡ some d.expires_at

built-IsOfCaller :
    (lib : Libraries) (q : LockRequest) (d : LockDocument)
    → build_lock_document lib q.owner q.now_utc ≡ some d
    → IsOfCaller lib q d
unfolding build_lock_document
built-IsOfCaller lib q d h = record {
  operation = ground arith;
  client = ground arith;
  player = ground arith;
  created = ground arith;
  expires = ground arith;
}

module _ {S : Type 0} (storage : Storage S) (laws : StorageLaws storage) (lib : Libraries)
    (q : LockRequest) where
  -- A raise, another outcome, or the lock's directory was free and now stands, with the document.
  abbrev pub IsAcquisition : Option LockAcquireResult → S → S → Type 0
  IsAcquisition none before after = Unit
  IsAcquisition (some r) before after =
      (r.outcome ≢ acquired)
      ⊎ ((laws.directory before (upload_lock_dir q.game_id) ≡ false)
          × (laws.directory after (upload_lock_dir q.game_id) ≡ true)
          × (r.owned ≡ true)
          × ((d : LockDocument) × (r.document ≡ some d)
              × (IsOfCaller lib q d)
              × (laws.file after (upload_lock_json q.game_id) ≡ some (to_json_bytes lib d))))

  abbrev Holds : Action S LockAcquireResult → Type 0
  Holds = Ensures (λ s. s) IsAcquisition

  abbrev Other : Action S LockAcquireResult → Type 0
  Other m = (w : World S) → IsOther (m w).0

  Other-bind :
      {A : Type 0} (m : Action S A) (f : A → Action S LockAcquireResult)
      → ((a : A) → Other (f a))
      → Other (m >>= f)
  unfolding ◌>>=◌
  Other-bind {A = A} m f k w = go (m w).0 (m w).1
    where
      go : (o : Option A) (w' : World S) → IsOther (continue o f w').0
      go none w' = tt
      go (some a) w' = k a w'

  resume_readable-Other : (d : Option LockDocument) → Other (resume_readable storage lib q d)
  unfolding resume_readable pure lift
  resume_readable-Other none w = λ e. cc
  resume_readable-Other (some d) w =
      Other-bind _ (λ p. lift (resume_decision q d p))
        (λ p w'. IsOther-some (resume_decision q d p) (resume_decision-ne q d p)) w

  resume_kind-Other :
      (d : Option LockDocument) (k : LockInspectionKind) → Other (resume_kind storage lib q d k)
  unfolding resume_kind pure
  resume_kind-Other d Inspect.transport_failure w = λ e. cc
  resume_kind-Other d Inspect.readable w = resume_readable-Other d w
  resume_kind-Other d _ w = λ e. cc

  resume-Other : Other (resume_existing_lock storage lib q)
  unfolding resume_existing_lock resume_inspected
  resume-Other = Other-bind _ _ (λ i. resume_kind-Other i.document i.kind)

  IsAcquisition-other :
      (o : Option LockAcquireResult) (before after : S) → IsOther o → IsAcquisition o before after
  IsAcquisition-other none before after h = tt
  IsAcquisition-other (some r) before after h = inl h

  -- After the write of the document into the new directory.
  written-IsAcquisition :
      (d : LockDocument) (before : S) (w : World S) (r : Reply (Unit {0}))
      → IsOfCaller lib q d
      → laws.directory before (upload_lock_dir q.game_id) ≡ false
      → laws.directory w.storage (upload_lock_dir q.game_id) ≡ true
      → (r ≡ ok tt → laws.file w.storage (upload_lock_json q.game_id) ≡ some (to_json_bytes lib d))
      → IsAcquisition
          (after_write storage lib q d r w).0
          before
          (after_write storage lib q d r w).1.storage
  unfolding after_write ◌>>=◌ write_journal pure
  written-IsAcquisition d before w (ok u) mine free stands written =
      go (begin_handoff (progress_record q) w.journal)
    where
      go :
          (j : Option Journal)
          → IsAcquisition
              (continue (changed w j).0 (λ _. pure (held_by acquired d true)) (changed w j).1).0
              before
              (continue
                (changed w j).0
                (λ _. pure (held_by acquired d true))
                (changed w j).1).1.storage
      go none = tt
      go (some j) = inr (free, stands, refl, (d, refl, mine, written refl))
  written-IsAcquisition d before w (err e) mine free stands written =
      IsAcquisition-other _ before _ (
        Other-bind (write_journal (begin_handoff (progress_record q)))
          (λ _. pure (refused transport_failure)) (λ a w' h. cc) w)

  made-IsAcquisition :
      (d : LockDocument) (before : S) (w : World S) (r : Reply (Unit {0}))
      → IsOfCaller lib q d
      → (r ≡ ok tt
          → (laws.directory before (upload_lock_dir q.game_id) ≡ false)
            × (laws.directory w.storage (upload_lock_dir q.game_id) ≡ true))
      → IsAcquisition
          (after_mkdir storage lib q d r w).0
          before
          (after_mkdir storage lib q d r w).1.storage
  unfolding after_mkdir call pure
  made-IsAcquisition d before w (ok u) mine made =
      let content = to_json_bytes lib d in
      let json = upload_lock_json q.game_id in
      written-IsAcquisition d before
        (record w { storage = (storage.write_file json content false w.storage).1 })
        (storage.write_file json content false w.storage).0 mine (made refl).0
        (laws.directory-write json (upload_lock_dir q.game_id) content false w.storage
          ∙ (made refl).1)
        (laws.file-write json content false w.storage)
  made-IsAcquisition d before w (err capability) mine made = inl (λ e. cc)
  made-IsAcquisition d before w (err already_exists) mine made =
      IsAcquisition-other _ before _ (resume-Other w)
  made-IsAcquisition d before w (err wrong_kind) mine made = inl (λ e. cc)
  made-IsAcquisition d before w (err _) mine made = inl (λ e. cc)

  make_lock-Holds : Holds (make_lock storage lib q)
  unfolding make_lock call
  make_lock-Holds =
      Ensures-lift _ _ (λ x. tt)
        (λ d built. record {
          at = λ w.
              made-IsAcquisition d w.storage
                (record w { storage = (storage.mkdir (upload_lock_dir q.game_id) w.storage).1 })
                (storage.mkdir (upload_lock_dir q.game_id) w.storage).0
                (built-IsOfCaller lib q d built)
                (laws.mkdir-exclusive (upload_lock_dir q.game_id) w.storage);
        })

  acquire-Holds : Holds (acquire_or_resume_upload_lock storage lib q)
  unfolding acquire_or_resume_upload_lock
  acquire-Holds =
      Ensures-bind _ _ (Keeps-ensure _) (λ x. tt)
        (λ _.
          Ensures-bind _ _ (Keeps-read_storage _) (λ x. tt)
            (λ b.
              Ensures-if b _ _ (λ _. make_lock-Holds) (λ _. Ensures-pure _ (λ x. inl (λ e. cc)))))

  -- Over any adapter that keeps the storage laws, `acquire_or_resume_upload_lock` reports an
  -- acquisition only where the lock's directory did not stand before; then the directory stands
  -- afterwards, the result says that the caller owns it and carries a document of the caller's
  -- operation, client and player and of the time of the call, and lock.json holds that document's
  -- bytes.
  pub acquire-IsAcquisition :
      (w : World S)
      → IsAcquisition
          (acquire_or_resume_upload_lock storage lib q w).0
          w.storage
          (acquire_or_resume_upload_lock storage lib q w).1.storage
  acquire-IsAcquisition w = acquire-Holds.at w
