-- ===== src/Storage/Fake.antt =====
-- storage/fake.py: the deterministic in-memory adapter with injected faults.
mod Scope
mod Bodies
pub mod Effects
pub mod Laws
use civ4_turn_relay.Prelude.{
  if◌then◌else◌, Bool, true, not, ◌&&◌, none, some, List, [], Text, Bytes,
}
use civ4_turn_relay.Domain.Paths.{validate_remote_relative_path}
use civ4_turn_relay.Storage.Port.{
  StorageError, invalid_path, not_found, wrong_kind, capability, transport, Reply, ok, err,
  StorageCapabilities, Op, Storage,
}
use civ4_turn_relay.Storage.Faults
use civ4_turn_relay.Storage.Faults.{
  FaultController, StorageOp, begin, finish, abort, corrupt_read_payload,
}
use civ4_turn_relay.Storage.Port
use civ4_turn_relay.Storage.Snapshot.{
  StorageSnapshot, Body, file_at, directory_at, mkdir_body, write_body, list_body, remove_file_body,
  remove_dir_body, publish_body, replace_body,
}

pub record FakeStorage : Type 0 where
  pub capabilities : StorageCapabilities
  pub snapshot : StorageSnapshot
  pub faults : FaultController

abbrev pub default_capabilities : StorageCapabilities
default_capabilities = record {
  exclusive_mkdir = true;
  atomic_replace = true;
  atomic_publish_no_replace = true;
  complete_readback = true;
}

abbrev pub new_storage : FakeStorage
new_storage = record {
  capabilities = default_capabilities;
  snapshot = record { directories = []; files = [] };
  faults = Faults.no_faults;
}

-- After the body: `abort` on an error, else the AFTER fault.
close_scope : {A : Type 0} → StorageOp → Reply A → FakeStorage → Reply A × FakeStorage
close_scope operation (err e) s = (err e, record s { faults = abort s.faults operation })
close_scope operation (ok a) s =
    let fired = finish s.faults operation in
    (if fired.0 then err transport else ok a, record s { faults = fired.1 })

unfoldable pub fault_scope : {A : Type 0} → StorageOp → Body A → Op FakeStorage A
unfolding close_scope
fault_scope operation body s =
    let started = begin s.faults operation in
    let s' : FakeStorage = record s { faults = started.1 } in
    let (r, t) = body s'.snapshot in
    if started.0 then (err transport, s') else close_scope operation r (record s' { snapshot = t })

-- The body of `read_file` may return corrupted bytes.
read_body : Text → FakeStorage → Reply Bytes × FakeStorage
read_body path s =
    if directory_at s.snapshot path then (err wrong_kind, s) else elim (file_at s.snapshot path) [
      | none ↦ (err not_found, s)
      | some content ↦
          if not s.capabilities.complete_readback
          then (err capability, s)
          else let read = corrupt_read_payload s.faults content in
            (ok read.0, record s { faults = read.1 })
    ]

unfoldable pub read_file : Text → Op FakeStorage Bytes
unfolding read_body close_scope
read_file path s =
    let started = begin s.faults Faults.read in
    let s' : FakeStorage = record s { faults = started.1 } in
    let (r, s'') = read_body path s' in
    if not (validate_remote_relative_path path)
    then (err invalid_path, s)
    else if started.0
    then (err transport, s')
    else close_scope Faults.read r s''

-- `_require_path` and `_require_capability`, which stand before the scope.
abbrev pub guarded : {A : Type 0} → Bool → StorageError → Op FakeStorage A → Op FakeStorage A
guarded passed e run s = if passed then run s else (err e, s)

unfoldable pub mkdir : Text → Op FakeStorage (Unit {0})
mkdir path s =
    guarded (validate_remote_relative_path path) invalid_path
      (guarded s.capabilities.exclusive_mkdir capability
        (fault_scope Faults.mkdir (mkdir_body path)))
      s

unfoldable pub write_file : Text → Bytes → Bool → Op FakeStorage (Unit {0})
write_file path content overwrite =
    guarded (validate_remote_relative_path path) invalid_path
      (fault_scope Faults.write (write_body path content overwrite))

unfoldable pub list_dir : Text → Op FakeStorage (List Port.StorageEntry)
list_dir path =
    guarded (validate_remote_relative_path path) invalid_path
      (fault_scope Faults.list (list_body path))

unfoldable pub remove_file : Text → Op FakeStorage (Unit {0})
remove_file path =
    guarded (validate_remote_relative_path path) invalid_path
      (fault_scope Faults.remove_file (remove_file_body path))

unfoldable pub remove_dir : Text → Op FakeStorage (Unit {0})
remove_dir path =
    guarded (validate_remote_relative_path path) invalid_path
      (fault_scope Faults.remove_dir (remove_dir_body path))

unfoldable pub publish_no_replace : Text → Text → Op FakeStorage (Unit {0})
publish_no_replace source destination s =
    guarded (validate_remote_relative_path source && validate_remote_relative_path destination)
      invalid_path
      (guarded s.capabilities.atomic_publish_no_replace capability
        (fault_scope Faults.publish_no_replace (publish_body source destination)))
      s

unfoldable pub atomic_replace : Text → Text → Op FakeStorage (Unit {0})
atomic_replace source destination s =
    guarded (validate_remote_relative_path source && validate_remote_relative_path destination)
      invalid_path
      (guarded s.capabilities.atomic_replace capability
        (fault_scope Faults.atomic_replace (replace_body source destination)))
      s

-- The adapter as an implementation of the port.
abbrev pub fake : Storage FakeStorage
fake = record {
  capabilities = λ s. s.capabilities;
  mkdir = mkdir;
  write_file = write_file;
  read_file = read_file;
  list_dir = list_dir;
  remove_file = remove_file;
  remove_dir = remove_dir;
  publish_no_replace = publish_no_replace;
  atomic_replace = atomic_replace;
}
