-- ===== src/Storage/Fake/Effects.antt =====
-- storage/fake.py: which files and directories an operation changes, whatever faults are scheduled.
use civ4_turn_relay.Prelude.{
  ◌≡◌, ◌≢◌, ◌⊎◌, refl, inl, Bool, true, false, Option, none, some, Text, Bytes, arith,
}
use civ4_turn_relay.Storage.Port.{StorageError, ok, err, not_found, transport}
use civ4_turn_relay.Storage.Faults
use civ4_turn_relay.Storage.Snapshot.{
  file_at, directory_at, mkdir_body, write_body, list_body, remove_file_body, remove_dir_body,
  publish_body, replace_body,
}
use civ4_turn_relay.Storage.Fake.{
  FakeStorage, close_scope, read_body, read_file, mkdir, write_file, list_dir, remove_file,
  remove_dir, publish_no_replace, atomic_replace,
}
use civ4_turn_relay.Storage.Fake.Scope.{scope-keeps, scope-ok, scope-err, scope-refused}
use civ4_turn_relay.Storage.Fake.Bodies

abbrev pub file : FakeStorage → Text → Option Bytes
file s = file_at s.snapshot

abbrev pub directory : FakeStorage → Text → Bool
directory s = directory_at s.snapshot

module _ (s : FakeStorage) where
  -- The read changes the schedule of faults and nothing else.
  pub snapshot-read : (p : Text) → (read_file p s).1.snapshot ≡ s.snapshot
  unfolding read_file read_body close_scope
  snapshot-read p = ground arith

  pub read-file_present : (p : Text) (b : Bytes) → (read_file p s).0 ≡ ok b → file s p ≢ none
  unfolding read_file read_body close_scope
  read-file_present p b h e = ground arith

  pub file-mkdir : (p q : Text) → file (mkdir p s).1 q ≡ file s q
  unfolding mkdir
  file-mkdir p q = ground (
    arith,
    scope-keeps Faults.mkdir (mkdir_body p) s (λ t. file_at t q ≡ file s q) refl
        (Bodies.mkdir-file s.snapshot p q),
  )

  pub directory-mkdir : (p q : Text) → directory s q ≡ true → directory (mkdir p s).1 q ≡ true
  unfolding mkdir
  directory-mkdir p q h = ground (
    arith,
    scope-keeps Faults.mkdir (mkdir_body p) s (λ t. directory_at t q ≡ true) h
        (Bodies.mkdir-directory s.snapshot p q h),
  )

  -- `mkdir` of the in-memory adapter succeeds only where no directory stood, and then one stands.
  pub mkdir-exclusive :
      (p : Text)
      → (mkdir p s).0 ≡ ok tt
      → (directory s p ≡ false) × (directory (mkdir p s).1 p ≡ true)
  unfolding mkdir
  mkdir-exclusive p h =
      ground (arith, scope-ok Faults.mkdir (mkdir_body p) s tt, Bodies.mkdir-fresh s.snapshot p)

  pub file-write_ne :
      (p q : Text) (b : Bytes) (o : Bool) → p ≢ q → file (write_file p b o s).1 q ≡ file s q
  unfolding write_file
  file-write_ne p q b o n = ground (
    arith,
    scope-keeps Faults.write (write_body p b o) s (λ t. file_at t q ≡ file s q) refl
        (Bodies.write-file_ne s.snapshot p q b o n),
  )

  -- Where `write_file` of the in-memory adapter succeeds, the file holds the content that was
  -- given.
  pub file-write :
      (p : Text) (b : Bytes) (o : Bool)
      → (write_file p b o s).0 ≡ ok tt
      → file (write_file p b o s).1 p ≡ some b
  unfolding write_file
  file-write p b o h =
      ground
        (arith, scope-ok Faults.write (write_body p b o) s tt, Bodies.write-file s.snapshot p b o)

  pub write-keeps :
      (p : Text) (b c : Bytes) → file s p ≡ some c → file (write_file p b false s).1 p ≡ some c
  unfolding write_file
  write-keeps p b c h = ground (
    arith,
    scope-keeps Faults.write (write_body p b false) s (λ t. file_at t p ≡ some c) h
        (Bodies.write-existing s.snapshot p b c h),
  )

  pub directory-write :
      (p q : Text) (b : Bytes) (o : Bool) → directory (write_file p b o s).1 q ≡ directory s q
  unfolding write_file
  directory-write p q b o = ground (
    arith,
    scope-keeps Faults.write (write_body p b o) s (λ t. directory_at t q ≡ directory s q) refl
        (Bodies.write-directory s.snapshot p q b o),
  )

  pub snapshot-list : (p : Text) → (list_dir p s).1.snapshot ≡ s.snapshot
  unfolding list_dir
  snapshot-list p = ground (
    arith,
    scope-keeps Faults.list (list_body p) s (λ t. t ≡ s.snapshot) refl
        (Bodies.list-same s.snapshot p),
  )

  pub list-not_found : (p : Text) → (list_dir p s).0 ≡ err not_found → directory s p ≡ false
  unfolding list_dir
  list-not_found p h =
      ground
        (arith, scope-err Faults.list (list_body p) s not_found, Bodies.list-not_found s.snapshot p)

  pub file-remove_file_ne : (p q : Text) → p ≢ q → file (remove_file p s).1 q ≡ file s q
  unfolding remove_file
  file-remove_file_ne p q n = ground (
    arith,
    scope-keeps Faults.remove_file (remove_file_body p) s (λ t. file_at t q ≡ file s q) refl
        (Bodies.remove_file-file_ne s.snapshot p q n),
  )

  pub directory-remove_file : (p q : Text) → directory (remove_file p s).1 q ≡ directory s q
  unfolding remove_file
  directory-remove_file p q = ground (
    arith,
    scope-keeps Faults.remove_file (remove_file_body p) s (λ t. directory_at t q ≡ directory s q)
        refl (Bodies.remove_file-directory s.snapshot p q),
  )

  pub file-remove_dir : (p q : Text) → file (remove_dir p s).1 q ≡ file s q
  unfolding remove_dir
  file-remove_dir p q = ground (
    arith,
    scope-keeps Faults.remove_dir (remove_dir_body p) s (λ t. file_at t q ≡ file s q) refl
        (Bodies.remove_dir-file s.snapshot p q),
  )

  pub file-publish_ne :
      (p d q : Text) → p ≢ q → d ≢ q → file (publish_no_replace p d s).1 q ≡ file s q
  unfolding publish_no_replace
  file-publish_ne p d q n m = ground (
    arith,
    scope-keeps Faults.publish_no_replace (publish_body p d) s (λ t. file_at t q ≡ file s q) refl
        (Bodies.publish-file_ne s.snapshot p d q n m),
  )

  pub directory-publish : (p d q : Text) → directory (publish_no_replace p d s).1 q ≡ directory s q
  unfolding publish_no_replace
  directory-publish p d q = ground (
    arith,
    scope-keeps Faults.publish_no_replace (publish_body p d) s
        (λ t. directory_at t q ≡ directory s q) refl (Bodies.publish-directory s.snapshot p d q),
  )

  pub file-replace_ne : (p d q : Text) → p ≢ q → d ≢ q → file (atomic_replace p d s).1 q ≡ file s q
  unfolding atomic_replace
  file-replace_ne p d q n m = ground (
    arith,
    scope-keeps Faults.atomic_replace (replace_body p d) s (λ t. file_at t q ≡ file s q) refl
        (Bodies.replace-file_ne s.snapshot p d q n m),
  )

  pub directory-replace : (p d q : Text) → directory (atomic_replace p d s).1 q ≡ directory s q
  unfolding atomic_replace
  directory-replace p d q = ground (
    arith,
    scope-keeps Faults.atomic_replace (replace_body p d) s (λ t. directory_at t q ≡ directory s q)
        refl (Bodies.replace-directory s.snapshot p d q),
  )

  -- `publish_no_replace` of the in-memory adapter never changes a file that stands at the
  -- destination, whatever its reply is.
  pub publish-keeps :
      (p d : Text) (b : Bytes) → file s d ≡ some b → file (publish_no_replace p d s).1 d ≡ some b
  unfolding publish_no_replace
  publish-keeps p d b h = ground (
    arith,
    scope-keeps Faults.publish_no_replace (publish_body p d) s (λ t. file_at t d ≡ some b) h
        (Bodies.publish-existing s.snapshot p d b h),
  )

  pub file-publish :
      (p d : Text)
      → (publish_no_replace p d s).0 ≡ ok tt
      → (file s d ≡ none) × (file (publish_no_replace p d s).1 d ≡ file s p)
  unfolding publish_no_replace
  file-publish p d h = ground (
    arith,
    scope-ok Faults.publish_no_replace (publish_body p d) s tt,
    Bodies.publish-file s.snapshot p d,
  )

  -- After `atomic_replace` of the in-memory adapter the destination holds its old content or that
  -- of the source, whatever its reply is.
  pub file-replace_either :
      (p d : Text)
      → (file (atomic_replace p d s).1 d ≡ file s d) ⊎ (file (atomic_replace p d s).1 d ≡ file s p)
  unfolding atomic_replace
  file-replace_either p d = ground (
    arith,
    scope-keeps Faults.atomic_replace (replace_body p d) s
        (λ t. (file_at t d ≡ file s d) ⊎ (file_at t d ≡ file s p)) (inl refl)
        (Bodies.replace-either s.snapshot p d),
  )

  pub file-replace :
      (p d : Text) → (atomic_replace p d s).0 ≡ ok tt → file (atomic_replace p d s).1 d ≡ file s p
  unfolding atomic_replace
  file-replace p d h = ground (
    arith,
    scope-ok Faults.atomic_replace (replace_body p d) s tt,
    Bodies.replace-file s.snapshot p d,
  )

  pub file-replace_refused :
      (p d : Text) (e : StorageError)
      → e ≢ transport
      → (atomic_replace p d s).0 ≡ err e
      → file (atomic_replace p d s).1 d ≡ file s d
  unfolding atomic_replace
  file-replace_refused p d e n h = ground (
    arith,
    scope-refused Faults.atomic_replace (replace_body p d) s e n,
    Bodies.replace-refused s.snapshot p d e,
  )
