-- ===== src/Storage/Fake/Laws.antt =====
-- storage/fake.py and the laws of the port, with any faults scheduled.
use civ4_turn_relay.Prelude.{ap}
use civ4_turn_relay.Storage.Laws.{StorageLaws}
use civ4_turn_relay.Storage.Snapshot.{file_at, directory_at}
use civ4_turn_relay.Storage.Fake.{fake}
use civ4_turn_relay.Storage.Fake.Effects

-- The in-memory adapter as an instance of the laws.
abbrev pub fake_laws : StorageLaws fake
fake_laws = record {
  file = Effects.file;
  directory = Effects.directory;
  file-read = λ p q s. ap (λ t. file_at t q) (Effects.snapshot-read s p);
  file-list = λ p q s. ap (λ t. file_at t q) (Effects.snapshot-list s p);
  directory-read = λ p q s. ap (λ t. directory_at t q) (Effects.snapshot-read s p);
  directory-list = λ p q s. ap (λ t. directory_at t q) (Effects.snapshot-list s p);
  read-present = λ p s. Effects.read-file_present s p;
  list-present = λ p s. Effects.list-not_found s p;
  file-mkdir = λ p q s. Effects.file-mkdir s p q;
  mkdir-exclusive = λ p s. Effects.mkdir-exclusive s p;
  directory-mkdir = λ p q s. Effects.directory-mkdir s p q;
  file-write_ne = λ p q b o s. Effects.file-write_ne s p q b o;
  file-write = λ p b o s. Effects.file-write s p b o;
  write-keeps = λ p b c s. Effects.write-keeps s p b c;
  directory-write = λ p q b o s. Effects.directory-write s p q b o;
  file-remove_file_ne = λ p q s. Effects.file-remove_file_ne s p q;
  directory-remove_file = λ p q s. Effects.directory-remove_file s p q;
  file-remove_dir = λ p q s. Effects.file-remove_dir s p q;
  file-publish_ne = λ p d q s. Effects.file-publish_ne s p d q;
  publish-keeps = λ p d b s. Effects.publish-keeps s p d b;
  file-publish = λ p d s. Effects.file-publish s p d;
  directory-publish = λ p d q s. Effects.directory-publish s p d q;
  file-replace_ne = λ p d q s. Effects.file-replace_ne s p d q;
  file-replace_either = λ p d s. Effects.file-replace_either s p d;
  file-replace = λ p d s. Effects.file-replace s p d;
  file-replace_refused = λ p d s. Effects.file-replace_refused s p d;
  directory-replace = λ p d q s. Effects.directory-replace s p d q;
}
