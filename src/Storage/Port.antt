-- ===== src/Storage/Port.antt =====
-- storage/port.py and storage/errors.py: the synchronous storage port.
--
-- An adapter is a state `S` with one function for each operation. An operation gives the result or
-- the error that it raises, with the state it leaves; what was done before a raise stays done.
use civ4_turn_relay.Prelude.{Bool, List, Text, Bytes}

-- The classes of errors.py, all subclasses of `StorageError`. Messages and paths are dropped.
pub data StorageError : Type 0 where
  invalid_path not_found already_exists wrong_kind not_empty capability transport : StorageError

pub data Reply (A : Type 0) : Type 0 where
  ok : A → Reply A
  err : StorageError → Reply A

pub data StorageEntryKind : Type 0 where
  file directory : StorageEntryKind

pub record StorageEntry : Type 0 where
  pub name : Text
  pub kind : StorageEntryKind

pub record StorageCapabilities : Type 0 where
  pub exclusive_mkdir : Bool
  pub atomic_replace : Bool
  pub atomic_publish_no_replace : Bool
  pub complete_readback : Bool

abbrev pub Op : Type 0 → Type 0 → Type 0
Op S A = S → Reply A × S

-- The `Storage` protocol.
pub record Storage (S : Type 0) : Type 0 where
  pub capabilities : S → StorageCapabilities
  pub mkdir : Text → Op S (Unit {0})
  pub write_file : Text → Bytes → Bool → Op S (Unit {0})
  pub read_file : Text → Op S Bytes
  pub list_dir : Text → Op S (List StorageEntry)
  pub remove_file : Text → Op S (Unit {0})
  pub remove_dir : Text → Op S (Unit {0})
  pub publish_no_replace : Text → Text → Op S (Unit {0})
  pub atomic_replace : Text → Text → Op S (Unit {0})
