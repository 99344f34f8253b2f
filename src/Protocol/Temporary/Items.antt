-- ===== src/Protocol/Temporary/Items.antt =====
-- protocol/cleanup.py: every candidate is reported once.
use civ4_turn_relay.Prelude.{
  count, count-append, ◌+◌, ◌≡◌, ◌⊎◌, inl, inr, refl, sym, ap, ◌∙◌, Bool-cases, Option, none, some,
  List, [], ◌∷◌, ◌++◌, Text, subst, Option-cases, arith, true, false, contains,
}
use mathlib.Core.List.{append_assoc, append-nil}
use civ4_turn_relay.Domain.Ids.{validate_game_id}
use civ4_turn_relay.Domain.Libraries.{Libraries}
use civ4_turn_relay.Storage.Port.{Storage, Reply, ok, err, not_found, wrong_kind}
use civ4_turn_relay.Protocol.Action.{World, ◌>>=◌, ensure, lift, pure, call, continue}
use civ4_turn_relay.Protocol.Lock.Document.{LockDocument}
use civ4_turn_relay.Protocol.Lock.Inspect
use civ4_turn_relay.Protocol.Lock.Inspect.{LockInspection, LockInspectionKind, inspect_upload_lock}
use civ4_turn_relay.Protocol.Temporary.Candidates.{
  TemporaryCandidateResult, TemporaryCleanupResult, path_violation_found, Resolved, Sorted,
  basename, is_protected, sort_candidates, sort_one, skip_all, item, protected, transport_failed,
}
use civ4_turn_relay.Protocol.Temporary.Cleanup.{
  Removing, after_remove, remove_each, by_inspection, clean_sorted, cleanup_temporary_orphans,
}

-- The candidates that the items are about.
unfoldable pub names : List TemporaryCandidateResult → List Text
names [] = []
names (i ∷ is) = i.candidate ∷ names is

unfoldable resolved_names : Resolved → List Text
resolved_names [] = []
resolved_names (e ∷ es) = e.0 ∷ resolved_names es

names-append : (xs ys : List TemporaryCandidateResult) → names (xs ++ ys) ≡ names xs ++ names ys
unfolding names
names-append [] ys = refl
names-append (x ∷ xs) ys = ap (λ t. x.candidate ∷ t) (names-append xs ys)

names-skip_all : (es : Resolved) → names (skip_all es) ≡ resolved_names es
unfolding names skip_all resolved_names
names-skip_all [] = refl
names-skip_all ((c, p) ∷ es) = ap (λ t. c ∷ t) (names-skip_all es)

-- The sorting loses no candidate, and repeats none.
sort-count :
    (game_id t : Text) (candidates : List Text) (s : Sorted)
    → sort_candidates game_id candidates ≡ some s
    → count t (names s.violations) + count t (resolved_names s.resolved) ≡ count t candidates
unfolding sort_candidates sort_one count names resolved_names
sort-count game_id t [] s h = ground arith
sort-count game_id t (c ∷ cs) s h = grind (arith, sort-count game_id t cs)

sort-names :
    (game_id : Text) (candidates : List Text) (s : Sorted)
    → sort_candidates game_id candidates ≡ some s
    → s.violations ≡ []
    → resolved_names s.resolved ≡ candidates
unfolding sort_candidates sort_one resolved_names
sort-names game_id [] s h v = ground arith
sort-names game_id (c ∷ cs) s h v = grind (arith, sort-names game_id cs)

-- What a run reports: every candidate once, in their order unless one of them violates the rules. With
-- no result the run raised, for the reason `raised`.
abbrev pub Reports : Type 0 → List Text → Option TemporaryCleanupResult → Type 0
Reports raised candidates none = raised
Reports raised candidates (some r) =
    ((t : Text) → count t (names r.items) ≡ count t candidates)
    × ((names r.items ≡ candidates) ⊎ (r.outcome ≡ path_violation_found))

in_order :
    (raised : Type 0) (candidates : List Text) (r : TemporaryCleanupResult)
    → names r.items ≡ candidates
    → Reports raised candidates (some r)
in_order raised candidates r e = ((λ t. ap (count t) e), inl e)

names-stopped :
    (items : List TemporaryCandidateResult) (candidate path : Text) (rest : Resolved)
    → names (items ++ item candidate path transport_failed ∷ skip_all rest)
      ≡ names items ++ resolved_names ((candidate, path) ∷ rest)
unfolding names resolved_names
names-stopped items candidate path rest =
    names-append items (item candidate path transport_failed ∷ skip_all rest)
    ∙ ap (λ t. names items ++ candidate ∷ t) (names-skip_all rest)

raised-Reports :
    (raised : Type 0) (candidates : List Text) (o : Option TemporaryCleanupResult)
    → Reports ⊥ candidates o
    → Reports raised candidates o
raised-Reports raised candidates none r = absurd r
raised-Reports raised candidates (some o) r = r

-- The sorting raises on an empty candidate only.
sort-raised :
    (game_id : Text) (candidates : List Text)
    → sort_candidates game_id candidates ≡ none
    → contains candidates [] ≡ true
unfolding sort_candidates sort_one contains
sort-raised game_id [] h = ground arith
sort-raised game_id (c ∷ cs) h = grind (arith, sort-raised game_id cs)

module _ {S : Type 0} (storage : Storage S) (lib : Libraries) (game_id : Text) where
  -- The loop goes on from items that stand for the first candidates.
  abbrev Continues : Resolved → Removing S → Type 0
  Continues rest next =
      (items : List TemporaryCandidateResult) (w : World S)
      → Reports ⊥ (names items ++ resolved_names rest) (next items w).0

  next-Reports :
      (rest : Resolved) (next : Removing S) (i : TemporaryCandidateResult) (path : Text)
      → Continues rest next
      → (items : List TemporaryCandidateResult) (w : World S)
      → Reports ⊥
          (names items ++ resolved_names ((i.candidate, path) ∷ rest))
          (next (items ++ i ∷ []) w).0
  unfolding resolved_names names
  next-Reports rest next i path k items w =
      subst (λ names. Reports ⊥ names (next (items ++ i ∷ []) w).0)
        (ap (λ t. t ++ resolved_names rest) (names-append items (i ∷ []))
          ∙ append_assoc (names items) (i.candidate ∷ []) (resolved_names rest))
        (k (items ++ i ∷ []) w)

  after_remove-Reports :
      (candidate path : Text) (rest : Resolved) (next : Removing S) (r : Reply (Unit {0}))
      → Continues rest next
      → Continues
          ((candidate, path) ∷ rest)
          (after_remove storage lib game_id candidate path rest next r)
  unfolding after_remove pure
  after_remove-Reports candidate path rest next (ok u) k items w =
      next-Reports rest next _ path k items w
  after_remove-Reports candidate path rest next (err not_found) k items w =
      next-Reports rest next _ path k items w
  after_remove-Reports candidate path rest next (err wrong_kind) k items w =
      next-Reports rest next _ path k items w
  after_remove-Reports candidate path rest next (err _) k items w =
      in_order ⊥ _ _ (names-stopped items candidate path rest)

  remove_each-Reports :
      (operation : Option Text) (resolved : Resolved)
      → Continues resolved (remove_each storage lib game_id operation resolved)
  unfolding remove_each pure call resolved_names
  remove_each-Reports operation [] items w = in_order ⊥ _ _ (sym (append-nil (names items)))
  remove_each-Reports operation ((candidate, path) ∷ rest) items w =
      elim (Bool-cases (is_protected operation (basename path))) [
        | inl p ↦ rw p (
            next-Reports rest (remove_each storage lib game_id operation rest)
              (item candidate path protected) path (remove_each-Reports operation rest) items w)
        | inr n ↦ rw n (
            after_remove-Reports candidate path rest
              (remove_each storage lib game_id operation rest) _
              (remove_each-Reports operation rest) items _)
      ]

  by_inspection-Reports :
      (resolved : Resolved) (d : Option LockDocument) (k : LockInspectionKind) (w : World S)
      → Reports ⊥ (resolved_names resolved) (by_inspection storage lib game_id resolved d k w).0
  unfolding by_inspection pure resolved_names names
  by_inspection-Reports resolved d Inspect.readable w = remove_each-Reports _ resolved [] w
  by_inspection-Reports resolved d Inspect.absent w = remove_each-Reports none resolved [] w
  by_inspection-Reports resolved d _ w = in_order ⊥ _ _ (names-skip_all resolved)

  inspected-Reports :
      (raised : Type 0) (resolved : Resolved) (o : Option LockInspection) (w : World S)
      → (o ≡ none → raised)
      → Reports raised
          (resolved_names resolved)
          (continue o (λ i. by_inspection storage lib game_id resolved i.document i.kind) w).0
  inspected-Reports raised resolved none w n = n refl
  inspected-Reports raised resolved (some i) w n =
      raised-Reports _ _ _ (by_inspection-Reports resolved i.document i.kind w)

  sorted-Reports :
      (raised : Type 0) (candidates : List Text) (violations : List TemporaryCandidateResult)
      (resolved : Resolved)
      → ((t : Text)
          → count t (names violations) + count t (resolved_names resolved) ≡ count t candidates)
      → (violations ≡ [] → resolved_names resolved ≡ candidates)
      → (w : World S) → ((inspect_upload_lock storage lib game_id w).0 ≡ none → raised)
      → Reports raised candidates (clean_sorted storage lib game_id violations resolved w).0
  unfolding clean_sorted pure ◌>>=◌
  sorted-Reports raised candidates [] resolved l n w k =
      subst (λ names. Reports raised names (clean_sorted storage lib game_id [] resolved w).0)
        (n refl) (inspected-Reports raised resolved _ _ k)
  sorted-Reports raised candidates (v ∷ vs) resolved l n w k = (
    (λ t.
        ap (count t) (names-append (v ∷ vs) (skip_all resolved))
        ∙ (count-append t (names (v ∷ vs)) (names (skip_all resolved))
            ∙ (ap (λ ns. count t (names (v ∷ vs)) + count t ns) (names-skip_all resolved) ∙ l t))),
    inr refl,
  )

  -- The game's id is not valid, a candidate is empty, or the inspection of the lock raises.
  abbrev pub IsRefused : List Text → World S → Type 0
  IsRefused candidates w =
      (validate_game_id game_id ≡ false)
      ⊎ ((contains candidates [] ≡ true) ⊎ ((inspect_upload_lock storage lib game_id w).0 ≡ none))

  -- `cleanup_temporary_orphans` reports every candidate exactly as often as it is given, whatever the
  -- storage replies, and the candidates in their order, unless its outcome is a violation of the rules
  -- on paths. It returns, but where the game's id is not valid, a candidate is empty or the
  -- inspection of the lock raises.
  pub cleanup-Reports :
      (candidates : List Text) (w : World S)
      → Reports
          (IsRefused candidates w)
          candidates
          (cleanup_temporary_orphans storage lib game_id candidates w).0
  unfolding cleanup_temporary_orphans ◌>>=◌ ensure lift
  cleanup-Reports candidates w = elim (Bool-cases (validate_game_id game_id)) [
    | inr bad ↦ rw bad (inl refl)
    | inl good ↦ rw good (elim (Option-cases (sort_candidates game_id candidates)) [
      | inl e ↦ rw e (inr (inl (sort-raised game_id candidates e)))
      | inr (s, e) ↦ rw e (
          sorted-Reports _ candidates s.violations s.resolved
            (λ t. sort-count game_id t candidates s e) (sort-names game_id candidates s e) w
            (λ n. inr (inr n)))
    ])
  ]
