-- ===== src/Storage/Fake/Bodies.antt =====
-- The bodies of the operations of storage/fake.py: which files and directories each changes.
use civ4_turn_relay.Prelude.{
  ◌≡◌, ◌≢◌, ◌⊎◌, Bool, true, false, none, some, Text, Bytes, arith, text_eq_iff, contains,
  text_eq_self,
}
use civ4_turn_relay.Prelude.Dict.{lookup-insert, lookup-remove}
use civ4_turn_relay.Storage.Port.{StorageError, ok, err, not_found}
use civ4_turn_relay.Storage.Snapshot.{
  StorageSnapshot, file_at, directory_at, mkdir_body, write_body, list_body, remove_file_body,
  remove_dir_body, publish_body, replace_body, require_file,
}

module _ (t : StorageSnapshot) where
  pub mkdir-file : (p q : Text) → file_at (mkdir_body p t).1 q ≡ file_at t q
  unfolding mkdir_body file_at
  mkdir-file p q = ground arith

  pub mkdir-directory :
      (p q : Text) → directory_at t q ≡ true → directory_at (mkdir_body p t).1 q ≡ true
  unfolding mkdir_body directory_at contains
  mkdir-directory p q h = ground arith

  pub mkdir-fresh :
      (p : Text)
      → (mkdir_body p t).0 ≡ ok tt
      → (directory_at t p ≡ false) × (directory_at (mkdir_body p t).1 p ≡ true)
  unfolding mkdir_body directory_at contains
  mkdir-fresh p h = ground (arith, text_eq_self p)

  pub write-file_ne :
      (p q : Text) (b : Bytes) (o : Bool) → p ≢ q → file_at (write_body p b o t).1 q ≡ file_at t q
  unfolding write_body file_at
  write-file_ne p q b o n = ground (arith, lookup-insert p q b t.files, text_eq_iff p q)

  pub write-file :
      (p : Text) (b : Bytes) (o : Bool)
      → (write_body p b o t).0 ≡ ok tt
      → file_at (write_body p b o t).1 p ≡ some b
  unfolding write_body file_at
  write-file p b o h = ground (arith, lookup-insert p p b t.files, text_eq_self p)

  pub write-existing :
      (p : Text) (b c : Bytes)
      → file_at t p ≡ some c
      → file_at (write_body p b false t).1 p ≡ some c
  unfolding write_body
  write-existing p b c h = ground arith

  pub write-directory :
      (p q : Text) (b : Bytes) (o : Bool) → directory_at (write_body p b o t).1 q ≡ directory_at t q
  unfolding write_body directory_at
  write-directory p q b o = ground arith

  pub list-same : (p : Text) → (list_body p t).1 ≡ t
  unfolding list_body
  list-same p = ground arith

  pub list-not_found : (p : Text) → (list_body p t).0 ≡ err not_found → directory_at t p ≡ false
  unfolding list_body
  list-not_found p h = ground arith

  pub remove_file-file_ne : (p q : Text) → p ≢ q → file_at (remove_file_body p t).1 q ≡ file_at t q
  unfolding remove_file_body file_at
  remove_file-file_ne p q n = ground (arith, lookup-remove p q t.files, text_eq_iff p q)

  pub remove_file-directory :
      (p q : Text) → directory_at (remove_file_body p t).1 q ≡ directory_at t q
  unfolding remove_file_body directory_at
  remove_file-directory p q = ground arith

  pub remove_dir-file : (p q : Text) → file_at (remove_dir_body p t).1 q ≡ file_at t q
  unfolding remove_dir_body file_at
  remove_dir-file p q = ground arith

  pub publish-file_ne :
      (p d q : Text) → p ≢ q → d ≢ q → file_at (publish_body p d t).1 q ≡ file_at t q
  unfolding publish_body file_at
  publish-file_ne p d q n m =
      grind (arith, lookup-insert, lookup-remove, text_eq_iff p q, text_eq_iff d q)

  pub publish-existing :
      (p d : Text) (b : Bytes) → file_at t d ≡ some b → file_at (publish_body p d t).1 d ≡ some b
  unfolding publish_body
  publish-existing p d b h = ground arith

  pub publish-file :
      (p d : Text)
      → (publish_body p d t).0 ≡ ok tt
      → (file_at t d ≡ none) × (file_at (publish_body p d t).1 d ≡ file_at t p)
  unfolding publish_body file_at require_file
  publish-file p d h = grind (arith, lookup-insert, text_eq_self d)

  pub publish-directory : (p d q : Text) → directory_at (publish_body p d t).1 q ≡ directory_at t q
  unfolding publish_body directory_at
  publish-directory p d q = ground arith

  pub replace-file_ne :
      (p d q : Text) → p ≢ q → d ≢ q → file_at (replace_body p d t).1 q ≡ file_at t q
  unfolding replace_body file_at
  replace-file_ne p d q n m =
      grind (arith, lookup-insert, lookup-remove, text_eq_iff p q, text_eq_iff d q)

  pub replace-file :
      (p d : Text) → (replace_body p d t).0 ≡ ok tt → file_at (replace_body p d t).1 d ≡ file_at t p
  unfolding replace_body file_at require_file
  replace-file p d h = grind (arith, lookup-insert, text_eq_self d, text_eq_iff p d)

  pub replace-either :
      (p d : Text)
      → (file_at (replace_body p d t).1 d ≡ file_at t d)
        ⊎ (file_at (replace_body p d t).1 d ≡ file_at t p)
  unfolding replace_body file_at require_file
  replace-either p d = grind (arith, lookup-insert, text_eq_self d)

  pub replace-directory : (p d q : Text) → directory_at (replace_body p d t).1 q ≡ directory_at t q
  unfolding replace_body directory_at
  replace-directory p d q = ground arith

  pub replace-refused :
      (p d : Text) (e : StorageError) → (replace_body p d t).0 ≡ err e → (replace_body p d t).1 ≡ t
  unfolding replace_body
  replace-refused p d e h = ground arith
