-- ===== src/Storage/Laws.antt =====
-- What a client may assume of an adapter of storage/port.py: which files and directories an
-- operation can change, on success and on an error, the interrupted ones included.
use civ4_turn_relay.Prelude.{◌≡◌, ◌≢◌, ◌⊎◌, Bool, true, false, Option, none, some, Text, Bytes}
use civ4_turn_relay.Storage.Port.{Storage, StorageError, ok, err, not_found, transport}

pub record StorageLaws {S : Type 0} (storage : Storage S) : Type 0 where
  -- The content of the file at a path, and whether a directory stands there.
  pub file : S → Text → Option Bytes
  pub directory : S → Text → Bool
  -- Reads and listings change nothing.
  pub file-read : (p q : Text) (s : S) → file (storage.read_file p s).1 q ≡ file s q
  pub file-list : (p q : Text) (s : S) → file (storage.list_dir p s).1 q ≡ file s q
  pub directory-read : (p q : Text) (s : S) → directory (storage.read_file p s).1 q ≡ directory s q
  pub directory-list : (p q : Text) (s : S) → directory (storage.list_dir p s).1 q ≡ directory s q
  -- Only a file can be read.
  pub read-present :
      (p : Text) (s : S) (b : Bytes) → (storage.read_file p s).0 ≡ ok b → file s p ≢ none
  pub list-present :
      (p : Text) (s : S) → (storage.list_dir p s).0 ≡ err not_found → directory s p ≡ false
  -- `mkdir` is exclusive, and touches no file.
  pub file-mkdir : (p q : Text) (s : S) → file (storage.mkdir p s).1 q ≡ file s q
  pub mkdir-exclusive :
      (p : Text) (s : S)
      → (storage.mkdir p s).0 ≡ ok tt
      → (directory s p ≡ false) × (directory (storage.mkdir p s).1 p ≡ true)
  pub directory-mkdir :
      (p q : Text) (s : S) → directory s q ≡ true → directory (storage.mkdir p s).1 q ≡ true
  -- A write reaches its path alone, and entirely or not at all.
  pub file-write_ne :
      (p q : Text) (b : Bytes) (o : Bool) (s : S)
      → p ≢ q
      → file (storage.write_file p b o s).1 q ≡ file s q
  pub file-write :
      (p : Text) (b : Bytes) (o : Bool) (s : S)
      → (storage.write_file p b o s).0 ≡ ok tt
      → file (storage.write_file p b o s).1 p ≡ some b
  pub write-keeps :
      (p : Text) (b c : Bytes) (s : S)
      → file s p ≡ some c
      → file (storage.write_file p b false s).1 p ≡ some c
  pub directory-write :
      (p q : Text) (b : Bytes) (o : Bool) (s : S)
      → directory (storage.write_file p b o s).1 q ≡ directory s q
  -- A removal reaches its path alone.
  pub file-remove_file_ne :
      (p q : Text) (s : S) → p ≢ q → file (storage.remove_file p s).1 q ≡ file s q
  pub directory-remove_file :
      (p q : Text) (s : S) → directory (storage.remove_file p s).1 q ≡ directory s q
  pub file-remove_dir : (p q : Text) (s : S) → file (storage.remove_dir p s).1 q ≡ file s q
  -- A publication moves a file to a free path, and never onto a file that is there.
  pub file-publish_ne :
      (p d q : Text) (s : S)
      → p ≢ q
      → d ≢ q
      → file (storage.publish_no_replace p d s).1 q ≡ file s q
  pub publish-keeps :
      (p d : Text) (b : Bytes) (s : S)
      → file s d ≡ some b
      → file (storage.publish_no_replace p d s).1 d ≡ some b
  pub file-publish :
      (p d : Text) (s : S)
      → (storage.publish_no_replace p d s).0 ≡ ok tt
      → (file s d ≡ none) × (file (storage.publish_no_replace p d s).1 d ≡ file s p)
  pub directory-publish :
      (p d q : Text) (s : S) → directory (storage.publish_no_replace p d s).1 q ≡ directory s q
  -- A replacement is atomic: the old content or that of the source.
  pub file-replace_ne :
      (p d q : Text) (s : S) → p ≢ q → d ≢ q → file (storage.atomic_replace p d s).1 q ≡ file s q
  pub file-replace_either :
      (p d : Text) (s : S)
      → (file (storage.atomic_replace p d s).1 d ≡ file s d)
        ⊎ (file (storage.atomic_replace p d s).1 d ≡ file s p)
  pub file-replace :
      (p d : Text) (s : S)
      → (storage.atomic_replace p d s).0 ≡ ok tt
      → file (storage.atomic_replace p d s).1 d ≡ file s p
  pub file-replace_refused :
      (p d : Text) (s : S) (e : StorageError)
      → e ≢ transport
      → (storage.atomic_replace p d s).0 ≡ err e
      → file (storage.atomic_replace p d s).1 d ≡ file s d
  pub directory-replace :
      (p d q : Text) (s : S) → directory (storage.atomic_replace p d s).1 q ≡ directory s q
