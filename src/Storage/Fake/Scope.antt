-- ===== src/Storage/Fake/Scope.antt =====
-- `_fault_scope` of storage/fake.py: what a scheduled fault can do to an operation's effect.
use civ4_turn_relay.Prelude.{◌≡◌, ◌⊎◌, inl, inr, arith, ◌≢◌}
use civ4_turn_relay.Storage.Port.{Reply, ok, err, StorageError, transport}
use civ4_turn_relay.Storage.Faults.{StorageOp}
use civ4_turn_relay.Storage.Snapshot.{StorageSnapshot, Body}
use civ4_turn_relay.Storage.Fake.{FakeStorage, fault_scope, close_scope}

module _ {A : Type 0} (o : StorageOp) (r : Reply A) (s : FakeStorage) where
  close-snapshot : (close_scope o r s).1.snapshot ≡ s.snapshot
  unfolding close_scope
  close-snapshot = ground arith

  close-ok : (a : A) → (close_scope o r s).0 ≡ ok a → r ≡ ok a
  unfolding close_scope
  close-ok a h = ground arith

module _ {A : Type 0} (o : StorageOp) (body : Body A) (s : FakeStorage) where
  -- After an operation the tree is the old one or the one that the body leaves.
  pub scope-either :
      ((fault_scope o body s).1.snapshot ≡ s.snapshot)
      ⊎ ((fault_scope o body s).1.snapshot ≡ (body s.snapshot).1)
  unfolding fault_scope close_scope
  scope-either = ground arith

  -- A success is the body's.
  pub scope-ok :
      (a : A)
      → (fault_scope o body s).0 ≡ ok a
      → ((body s.snapshot).0 ≡ ok a) × ((fault_scope o body s).1.snapshot ≡ (body s.snapshot).1)
  unfolding fault_scope close_scope
  scope-ok a h = ground arith

  -- An error other than a transport failure is the body's.
  pub scope-err :
      (e : StorageError)
      → e ≢ transport
      → (fault_scope o body s).0 ≡ err e
      → (body s.snapshot).0 ≡ err e
  unfolding fault_scope close_scope
  scope-err e n h = ground arith

  pub scope-refused :
      (e : StorageError)
      → e ≢ transport
      → (fault_scope o body s).0 ≡ err e
      → ((body s.snapshot).0 ≡ err e) × ((fault_scope o body s).1.snapshot ≡ (body s.snapshot).1)
  unfolding fault_scope close_scope
  scope-refused e n h = ground arith

  -- What the old tree and the body's tree have, the tree after the operation has.
  pub scope-keeps :
      (P : StorageSnapshot → Type 0)
      → P s.snapshot
      → P (body s.snapshot).1
      → P (fault_scope o body s).1.snapshot
  scope-keeps P h k = elim scope-either [ inl e ↦ rw e h | inr e ↦ rw e k ]
