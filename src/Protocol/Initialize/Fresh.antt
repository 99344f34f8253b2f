-- ===== src/Protocol/Initialize/Fresh.antt =====
-- protocol/initialize.py: a match is created where none was.
use civ4_turn_relay.Prelude.{
  ◌≡◌, ◌≢◌, ◌⊎◌, inl, inr, refl, ◌∙◌, true, false, Bool-cases, subst, arith, Option, some, List, [],
  ◌∷◌, Text, Bytes,
}
use civ4_turn_relay.Domain.Libraries.{Libraries}
use civ4_turn_relay.Domain.Ids.{validate_operation_id}
use civ4_turn_relay.Domain.Config.{MatchConfig}
use civ4_turn_relay.Domain.Manifest.{Manifest}
use civ4_turn_relay.Domain.Manifest.Codec.{to_json_bytes}
use civ4_turn_relay.Storage.Port.{
  Storage, StorageError, Reply, ok, err, capability, wrong_kind, transport,
}
use civ4_turn_relay.Storage.Laws.{StorageLaws}
use civ4_turn_relay.Protocol.Action.{World, Action, pure, call, ensure, ◌>>=◌}
use civ4_turn_relay.Protocol.Action.Keeps.{Keeps-ensure, Keeps}
use civ4_turn_relay.Protocol.Action.Ensures.{
  Ensures, Ensures-pure, Ensures-bind, Ensures-lift, Ensures-call,
}
use civ4_turn_relay.Protocol.Paths.{manifest}
use civ4_turn_relay.Protocol.Paths.Distinct.{Begins-ne, manifest-Begins, temporary_manifest-Begins}
use civ4_turn_relay.Protocol.Initialize.{
  InitializeResult, commit_failed, after_replace, sequence_zero_manifest, after_write, commit_first,
  after_subdirectory, finish_new_match, after_root, initialize_match, required_subdirectories,
}
use civ4_turn_relay.Protocol.Initialize.Keeps.{
  commit_failed-Keeps, after_replace-Keeps, after_root-Keeps,
}
use civ4_turn_relay.Protocol.Initialize.Zero.{IsZero, built-IsZero, IsChange, uncertain-IsChange}

module _ {S : Type 0} (storage : Storage S) (laws : StorageLaws storage) (lib : Libraries)
    (config : MatchConfig) (operation_id : Text) where
  -- Where the root of the match stood as a directory, `initialize_match` leaves the content of every
  -- file as it was, over any adapter that keeps the storage laws, also where it raises.
  pub initialize-existing :
      (path : Text) (w : World S)
      → laws.directory w.storage config.game_id ≡ true
      → laws.file (initialize_match storage lib config operation_id w).1.storage path
        ≡ laws.file w.storage path
  unfolding initialize_match ◌>>=◌ ensure call
  initialize-existing path w stood = elim (Bool-cases (validate_operation_id operation_id)) [
    | inr bad ↦ rw bad refl
    | inl good ↦ rw good (go (storage.mkdir config.game_id w.storage).0 refl)
  ]
    where
      made : World S
      made = record w { storage = (storage.mkdir config.game_id w.storage).1 }

      go :
          (r : Reply (Unit {0}))
          → (storage.mkdir config.game_id w.storage).0 ≡ r
          → laws.file (after_root storage lib config operation_id r made).1.storage path
            ≡ laws.file w.storage path
      go (ok u) e =
          absurd (ground (arith, stood, (laws.mkdir-exclusive config.game_id w.storage e).0))
      go (err e) h =
          (after_root-Keeps storage lib config operation_id (λ s. laws.file s path)
              (λ p. laws.file-read p path) (λ p. laws.file-list p path) e).same
            made
          ∙ laws.file-mkdir config.game_id path w.storage

  -- The manifest's file is as it was, or holds the bytes of the manifest of sequence zero; then the
  -- run raised, or reported neither a missing capability nor an incomplete match.
  abbrev pub IsInitial : Option InitializeResult → Option Bytes → Option Bytes → Type 0
  IsInitial o before after =
      (after ≡ before)
      ⊎ ((zero : Manifest) × (IsZero config zero)
          × (after ≡ some (to_json_bytes lib zero))
          × (IsChange o))

  abbrev see : S → Option Bytes
  see s = laws.file s (manifest config.game_id)

  abbrev Creates : Action S InitializeResult → Type 0
  Creates = Ensures see IsInitial

  keep_Creates :
      (m : Action S InitializeResult) → Keeps (λ (w : World S). see w.storage) m → Creates m
  keep_Creates m k = record { at = λ w. inl (k.same w) }

  claimed-IsChange :
      (zero : Manifest) (w : World S)
      → IsChange (after_replace storage lib config operation_id zero (ok tt) w).0
  unfolding after_replace pure
  claimed-IsChange zero w = ((λ e. cc), (λ e. cc))

  lost-IsChange :
      (zero : Manifest) (w : World S)
      → IsChange (after_replace storage lib config operation_id zero (err transport) w).0
  unfolding after_replace commit_failed
  lost-IsChange zero w =
      uncertain-IsChange storage lib config operation_id (to_json_bytes lib zero) w

  replaced-IsInitial :
      (zero : Manifest) (temp : Text) (w : World S)
      → sequence_zero_manifest config ≡ some zero
      → laws.file w.storage temp ≡ some (to_json_bytes lib zero)
      → IsInitial
          (after_write storage lib config operation_id zero temp (ok tt) w).0
          (see w.storage)
          (see (after_write storage lib config operation_id zero temp (ok tt) w).1.storage)
  unfolding after_write call
  replaced-IsInitial zero temp w e written =
      go (storage.atomic_replace temp (manifest config.game_id) w.storage).0 refl
    where
      moved : World S
      moved = record w {
        storage = (storage.atomic_replace temp (manifest config.game_id) w.storage).1;
      }

      kept :
          (r : Reply (Unit {0}))
          → see (after_replace storage lib config operation_id zero r moved).1.storage
            ≡ see moved.storage
      kept r =
          (after_replace-Keeps storage lib config operation_id see
              (λ p. laws.file-read p (manifest config.game_id))
              (λ p. laws.file-list p (manifest config.game_id)) zero r).same
            moved

      either :
          (r : Reply (Unit {0}))
          → IsChange (after_replace storage lib config operation_id zero r moved).0
          → IsInitial
              (after_replace storage lib config operation_id zero r moved).0
              (see w.storage)
              (see (after_replace storage lib config operation_id zero r moved).1.storage)
      either r c = elim (laws.file-replace_either temp (manifest config.game_id) w.storage) [
        | inl old ↦ inl (kept r ∙ old)
        | inr new ↦ inr (zero, built-IsZero config zero e, kept r ∙ (new ∙ written), c)
      ]

      refused :
          (f : StorageError)
          → f ≢ transport
          → (storage.atomic_replace temp (manifest config.game_id) w.storage).0 ≡ err f
          → IsInitial
              (after_replace storage lib config operation_id zero (err f) moved).0
              (see w.storage)
              (see (after_replace storage lib config operation_id zero (err f) moved).1.storage)
      refused f n h =
          inl (
            kept (err f) ∙ laws.file-replace_refused temp (manifest config.game_id) w.storage f n h)

      go :
          (r : Reply (Unit {0}))
          → (storage.atomic_replace temp (manifest config.game_id) w.storage).0 ≡ r
          → IsInitial
              (after_replace storage lib config operation_id zero r moved).0
              (see w.storage)
              (see (after_replace storage lib config operation_id zero r moved).1.storage)
      go (ok u) h = either (ok u) (claimed-IsChange zero moved)
      go (err transport) h = either (err transport) (lost-IsChange zero moved)
      go (err f) h = refused f (λ x. cc) h

  failed-Keeps :
      (zero : Manifest) (temp : Text) (f : StorageError)
      → Keeps
          (λ (w : World S). see w.storage)
          (after_write storage lib config operation_id zero temp (err f))
  unfolding after_write
  failed-Keeps zero temp f =
      commit_failed-Keeps storage lib config operation_id see
        (λ p. laws.file-read p (manifest config.game_id))
        (λ p. laws.file-list p (manifest config.game_id)) _ f

  -- After the write of the payload to its temporary path.
  written-IsInitial :
      (zero : Manifest) (temp : Text) (w : World S)
      → sequence_zero_manifest config ≡ some zero
      → temp ≢ manifest config.game_id
      → IsInitial
          (call
            (storage.write_file temp (to_json_bytes lib zero) false)
            (after_write storage lib config operation_id zero temp)
            w).0
          (see w.storage)
          (see
            (call
              (storage.write_file temp (to_json_bytes lib zero) false)
              (after_write storage lib config operation_id zero temp)
              w).1.storage)
  unfolding call
  written-IsInitial zero temp w e apart =
      go (storage.write_file temp (to_json_bytes lib zero) false w.storage).0 refl
    where
      wrote : World S
      wrote = record w {
        storage = (storage.write_file temp (to_json_bytes lib zero) false w.storage).1;
      }

      unseen : see wrote.storage ≡ see w.storage
      unseen =
          laws.file-write_ne temp (manifest config.game_id) (to_json_bytes lib zero) false w.storage
            apart

      go :
          (r : Reply (Unit {0}))
          → (storage.write_file temp (to_json_bytes lib zero) false w.storage).0 ≡ r
          → IsInitial
              (after_write storage lib config operation_id zero temp r wrote).0
              (see w.storage)
              (see (after_write storage lib config operation_id zero temp r wrote).1.storage)
      go (ok u) h =
          subst
            (λ x.
              IsInitial (after_write storage lib config operation_id zero temp (ok tt) wrote).0 x (
                see
                  (after_write storage lib config operation_id zero temp (ok tt) wrote).1.storage))
            unseen
            (replaced-IsInitial zero temp wrote e
              (laws.file-write temp (to_json_bytes lib zero) false w.storage h))
      go (err f) h = inl ((failed-Keeps zero temp f).same wrote ∙ unseen)

  commit_first-Creates : Creates (commit_first storage lib config operation_id)
  unfolding commit_first
  commit_first-Creates =
      Ensures-lift _ _ (λ x. inl refl)
        (λ zero e.
          Ensures-lift _ _ (λ x. inl refl)
            (λ temp t. record {
              at = λ w. written-IsInitial zero temp w e (
                  Begins-ne config.game_id b't' b'm' temp (manifest config.game_id)
                    (λ h. ground arith)
                    (temporary_manifest-Begins config.game_id operation_id temp t)
                    (manifest-Begins config.game_id));
            }))

  after_subdirectory-Creates :
      (rest : Action S InitializeResult) (r : Reply (Unit {0}))
      → Creates rest
      → Creates (after_subdirectory storage lib config operation_id rest r)
  unfolding after_subdirectory
  after_subdirectory-Creates rest (ok u) k = k
  after_subdirectory-Creates rest (err capability) k = Ensures-pure _ (λ x. inl refl)
  after_subdirectory-Creates rest (err wrong_kind) k = Ensures-pure _ (λ x. inl refl)
  after_subdirectory-Creates rest (err _) k = Ensures-pure _ (λ x. inl refl)

  finish-Creates :
      (names : List Text) → Creates (finish_new_match storage lib config operation_id names)
  unfolding finish_new_match
  finish-Creates [] = commit_first-Creates
  finish-Creates (name ∷ names) =
      Ensures-lift _ _ (λ x. inl refl)
        (λ path e.
          Ensures-call _ _ (λ s. laws.file-mkdir path (manifest config.game_id) s)
            (λ r. after_subdirectory-Creates _ r (finish-Creates names)))

  after_root-Creates :
      (r : Reply (Unit {0})) → Creates (after_root storage lib config operation_id r)
  unfolding after_root
  after_root-Creates (ok u) = finish-Creates required_subdirectories
  after_root-Creates (err e) = keep_Creates _ (
      after_root-Keeps storage lib config operation_id see
        (λ p. laws.file-read p (manifest config.game_id))
        (λ p. laws.file-list p (manifest config.game_id)) e)

  -- `initialize_match` leaves the authoritative manifest as it was, or puts the bytes of a manifest
  -- there that has the configuration's game, name and players, of whom the first is to move, at
  -- sequence zero and with no save, sender, operation or history; a run that reports a missing
  -- capability or an incomplete match left it as it was. This holds over any adapter that keeps the
  -- storage laws, also where the run raises.
  pub initialize-IsInitial :
      (w : World S)
      → IsInitial
          (initialize_match storage lib config operation_id w).0
          (laws.file w.storage (manifest config.game_id))
          (laws.file
            (initialize_match storage lib config operation_id w).1.storage
            (manifest config.game_id))
  unfolding initialize_match
  initialize-IsInitial w =
      (Ensures-bind {see = see} _ _ (Keeps-ensure _) (λ x. inl refl)
          (λ u.
            Ensures-call _ _ (λ s. laws.file-mkdir config.game_id (manifest config.game_id) s)
              after_root-Creates)).at
        w
