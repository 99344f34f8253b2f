-- ===== src/Protocol/Temporary/Removal.antt =====
-- protocol/cleanup.py: what the cleanup leaves as it was.
use civ4_turn_relay.Prelude.{
  Bytes, ap, ◌∙◌, Option-cases, ◌≡◌, refl, true, false, Bool-cases, inl, inr, Option, none, some,
  List, [], ◌∷◌, Text, starts_with, text_eq, text_eq_iff, not, ◌||◌, ◌++◌, codes, arith,
}
use civ4_turn_relay.Domain.Libraries.{Libraries}
use civ4_turn_relay.Domain.Paths.{all_of}
use civ4_turn_relay.Domain.Ids.{validate_game_id}
use civ4_turn_relay.Storage.Port.{Storage, Reply, ok, err, not_found, wrong_kind}
use civ4_turn_relay.Storage.Laws.{StorageLaws}
use civ4_turn_relay.Protocol.Action.{World, ◌>>=◌, ensure, lift, pure}
use civ4_turn_relay.Protocol.Action.Keeps.{
  Keeps, of_storage, Keeps-pure, Keeps-bind, Keeps-call, Keeps-ensure, Keeps-lift_bind, bind_at,
}
use civ4_turn_relay.Protocol.Lock.Document.{LockDocument}
use civ4_turn_relay.Protocol.Lock.Inspect
use civ4_turn_relay.Protocol.Lock.Inspect.{LockInspection, LockInspectionKind, inspect_upload_lock}
use civ4_turn_relay.Protocol.Lock.Observes.{inspect-Keeps}
use civ4_turn_relay.Protocol.Temporary.Candidates.{
  TemporaryCandidateResult, temporary_prefix, is_contained, Resolved, basename, is_protected,
  operation_of, protected_by_operation, sort_candidates,
}
use civ4_turn_relay.Protocol.Temporary.Contained.{AllContained, sort-AllContained}
use civ4_turn_relay.Protocol.Temporary.Cleanup.{
  Removing, after_remove, remove_each, by_inspection, clean_sorted, cleanup_temporary_orphans,
}

-- No unprotected entry of the list has the path `q`.
abbrev Spares : Option Text → Text → Resolved → Type 0
Spares operation q resolved =
    all_of (λ (e : Text × Text). is_protected operation (basename e.1) || not (text_eq e.1 q))
      resolved
    ≡ true

-- Contained entries spare what is not below the directory of temporary objects.
contained-Spares :
    (operation : Option Text) (game_id q : Text) (resolved : Resolved)
    → starts_with q (temporary_prefix game_id) ≡ false
    → AllContained game_id resolved
    → Spares operation q resolved
unfolding all_of is_contained
contained-Spares operation game_id q [] h c = refl
contained-Spares operation game_id q ((candidate, path) ∷ rest) h c =
    grind (arith, contained-Spares operation game_id q rest h, text_eq_iff path q)

-- The entries of a protected path are protected.
protected-Spares :
    (operation_id q : Text) (resolved : Resolved)
    → protected_by_operation (basename q) operation_id ≡ true
    → Spares (some operation_id) q resolved
unfolding all_of
protected-Spares operation_id q [] h = refl
protected-Spares operation_id q ((candidate, path) ∷ rest) h =
    grind (arith, protected-Spares operation_id q rest h, text_eq_iff path q)

-- The names of the temporary objects of an operation: its upload with any extension, its manifest and
-- its history.
pub data IsObject (operation_id name : Text) : Type 0 where
  upload : (rest : Text) → name ≡ operation_id ++ (b'.' ∷ rest) → IsObject operation_id name
  staged_manifest :
      name ≡ codes "manifest-" ++ (operation_id ++ codes ".json") → IsObject operation_id name
  staged_history :
      name ≡ codes "history-" ++ (operation_id ++ codes ".json") → IsObject operation_id name

starts_with-append : (a rest : Text) → starts_with (a ++ (b'.' ∷ rest)) (a ++ codes ".") ≡ true
unfolding starts_with
starts_with-append [] rest = refl
starts_with-append (c ∷ a) rest = ground (arith, starts_with-append a rest)

object-protected :
    (operation_id name : Text)
    → IsObject operation_id name
    → protected_by_operation name operation_id ≡ true
unfolding protected_by_operation
object-protected operation_id name (upload rest e) =
    rw (e, starts_with-append operation_id rest) refl
object-protected operation_id name (staged_manifest e) =
    ground (arith, text_eq_iff name (codes "manifest-" ++ (operation_id ++ codes ".json")))
object-protected operation_id name (staged_history e) =
    ground (arith, text_eq_iff name (codes "history-" ++ (operation_id ++ codes ".json")))

module _ {S : Type 0} (storage : Storage S) (laws : StorageLaws storage) (lib : Libraries)
    (game_id q : Text) where
  abbrev see : S → Option Bytes
  see s = laws.file s q

  abbrev Quiet : Removing S → Type 0
  Quiet next = (items : List TemporaryCandidateResult) → Keeps (of_storage see) (next items)

  after_remove-Keeps :
      (candidate path : Text) (rest : Resolved) (next : Removing S)
      → Quiet next
      → (r : Reply (Unit {0})) → Quiet (after_remove storage lib game_id candidate path rest next r)
  unfolding after_remove
  after_remove-Keeps candidate path rest next k (ok u) items = k _
  after_remove-Keeps candidate path rest next k (err not_found) items = k _
  after_remove-Keeps candidate path rest next k (err wrong_kind) items = k _
  after_remove-Keeps candidate path rest next k (err _) items = Keeps-pure _

  remove_each-Keeps :
      (operation : Option Text) (resolved : Resolved)
      → Spares operation q resolved
      → Quiet (remove_each storage lib game_id operation resolved)
  unfolding remove_each all_of
  remove_each-Keeps operation [] h items = Keeps-pure _
  remove_each-Keeps operation ((candidate, path) ∷ rest) h items =
      elim (Bool-cases (is_protected operation (basename path))) [
        | inl p ↦ rw p (remove_each-Keeps operation rest (ground arith) _)
        | inr n ↦ rw n (
            Keeps-call see _ _
              (λ s. laws.file-remove_file_ne path q s (λ e. ground (arith, text_eq_iff path q)))
              (λ r.
                after_remove-Keeps candidate path rest _
                  (remove_each-Keeps operation rest (ground arith)) r items))
      ]

  by_inspection-Keeps :
      (resolved : Resolved) (d : Option LockDocument) (k : LockInspectionKind)
      → Spares none q resolved
      → Spares (operation_of d) q resolved
      → Keeps (of_storage see) (by_inspection storage lib game_id resolved d k)
  unfolding by_inspection
  by_inspection-Keeps resolved d Inspect.readable hn hd = remove_each-Keeps _ resolved hd _
  by_inspection-Keeps resolved d Inspect.absent hn hd = remove_each-Keeps none resolved hn _
  by_inspection-Keeps resolved d _ hn hd = Keeps-pure _

  clean_sorted-Keeps :
      (violations : List TemporaryCandidateResult) (resolved : Resolved)
      → ((operation : Option Text) → Spares operation q resolved)
      → Keeps (of_storage see) (clean_sorted storage lib game_id violations resolved)
  unfolding clean_sorted
  clean_sorted-Keeps (v ∷ vs) resolved h = Keeps-pure _
  clean_sorted-Keeps [] resolved h =
      Keeps-bind _ _
        (inspect-Keeps storage lib see (λ p. laws.file-read p q) (λ p. laws.file-list p q) game_id)
        (λ i. by_inspection-Keeps resolved i.document i.kind (h none) (h _))

  -- `cleanup_temporary_orphans` leaves the content of every file as it was whose path does not begin
  -- with `{game}/temporary/`, whatever candidates it is given, over any adapter that keeps the
  -- storage laws, also where it raises: the manifest, the saves, the history and the lock.
  pub cleanup-file :
      (candidates : List Text) (w : World S)
      → starts_with q (temporary_prefix game_id) ≡ false
      → laws.file (cleanup_temporary_orphans storage lib game_id candidates w).1.storage q
        ≡ laws.file w.storage q
  unfolding cleanup_temporary_orphans
  cleanup-file candidates w h =
      (Keeps-bind {see = of_storage see} _ _ (Keeps-ensure _) (λ u. Keeps-lift_bind _ _ (λ sorted e.
          clean_sorted-Keeps sorted.violations sorted.resolved (λ operation.
            contained-Spares operation game_id q sorted.resolved h
              (sort-AllContained game_id candidates sorted e))))).same
        w

  -- Whatever is resolved, where the lock is read as that of an operation that the path belongs to.
  clean_sorted-protected :
      (violations : List TemporaryCandidateResult) (resolved : Resolved) (w : World S)
      (i : LockInspection) (d : LockDocument)
      → (inspect_upload_lock storage lib game_id w).0 ≡ some i
      → i.kind ≡ Inspect.readable
      → i.document ≡ some d
      → protected_by_operation (basename q) d.operation_id ≡ true
      → see (clean_sorted storage lib game_id violations resolved w).1.storage ≡ see w.storage
  unfolding clean_sorted by_inspection pure
  clean_sorted-protected (v ∷ vs) resolved w i d inspected kind document h = refl
  clean_sorted-protected [] resolved w i d inspected kind document h =
      ap (λ r. see r.1.storage) (bind_at _ _ w i inspected)
      ∙ (kept
          ∙ (inspect-Keeps storage lib see (λ p. laws.file-read p q) (λ p. laws.file-list p q)
                game_id).same
              w)
    where
      w' : World S
      w' = (inspect_upload_lock storage lib game_id w).1

      kept :
          see (by_inspection storage lib game_id resolved i.document i.kind w').1.storage
          ≡ see w'.storage
      kept =
          rw (kind, document)
            ((remove_each-Keeps (some d.operation_id) resolved
                (protected-Spares d.operation_id q resolved h) []).same
              w')

  -- Where the lock is readable and its document names an operation, `cleanup_temporary_orphans`
  -- leaves the content of every file as it was that has the name of one of the operation's temporary
  -- objects, `{operation}.…`, `manifest-{operation}.json` or `history-{operation}.json`, whatever
  -- candidates it is given, over any adapter that keeps the storage laws, also where it raises.
  pub cleanup-protected :
      (candidates : List Text) (w : World S) (i : LockInspection) (d : LockDocument)
      → (inspect_upload_lock storage lib game_id w).0 ≡ some i
      → i.kind ≡ Inspect.readable
      → i.document ≡ some d
      → IsObject d.operation_id (basename q)
      → laws.file (cleanup_temporary_orphans storage lib game_id candidates w).1.storage q
        ≡ laws.file w.storage q
  unfolding cleanup_temporary_orphans ◌>>=◌ ensure lift
  cleanup-protected candidates w i d inspected kind document object =
      elim (Bool-cases (validate_game_id game_id)) [
        | inr bad ↦ rw bad refl
        | inl good ↦ rw good (elim (Option-cases (sort_candidates game_id candidates)) [
          | inl e ↦ rw e refl
          | inr (s, e) ↦ rw e (
              clean_sorted-protected s.violations s.resolved w i d inspected kind document
                (object-protected d.operation_id (basename q) object))
        ])
      ]
