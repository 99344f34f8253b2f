-- ===== src/Protocol/Temporary/Candidates.antt =====
-- protocol/cleanup.py: the candidates, the results and where a candidate lies.
use civ4_turn_relay.Prelude.{
  ℕ, zero, suc, ◌==◌, if◌then◌else◌, length, Bool, false, not, ◌&&◌, ◌||◌, Option, none, some, List,
  [], ◌∷◌, ◌++◌, Text, codes, text_eq, starts_with,
}
use civ4_turn_relay.Prelude.Maybe.{require, ◌>>=◌, ◌>>◌}
use civ4_turn_relay.Domain.Paths.{any_char, split, validate_remote_relative_path}
use civ4_turn_relay.Protocol.Paths.{under, resolve}
use civ4_turn_relay.Protocol.Lock.Document.{LockDocument}

pub data TemporaryCleanupOutcome : Type 0 where
  completed lock_unsafe path_violation_found transport_failure : TemporaryCleanupOutcome

pub data TemporaryCandidateAction : Type 0 where
  removed missing protected wrong_kind_left transport_failed path_violation skipped :
      TemporaryCandidateAction

pub record TemporaryCandidateResult : Type 0 where
  pub candidate : Text
  pub storage_path : Option Text
  pub action : TemporaryCandidateAction

pub record TemporaryCleanupResult : Type 0 where
  pub outcome : TemporaryCleanupOutcome
  pub items : List TemporaryCandidateResult

-- `value[n:]`
unfoldable pub drop : ℕ → Text → Text
drop zero cs = cs
drop (suc n) [] = []
drop (suc n) (c ∷ cs) = drop n cs

-- `f"{paths.temporary}/"`
unfoldable pub temporary_prefix : Text → Text
temporary_prefix game_id = under game_id (codes "temporary/")

-- `len(parts) == 2 and parts[0] == TEMPORARY_DIR`
abbrev pub is_temporary_pair : List Text → Bool
is_temporary_pair (directory ∷ name ∷ []) = text_eq directory (codes "temporary")
is_temporary_pair _ = false

-- The storage path that is examined.
unfoldable pub located : Text → Text → Option Text
located game_id candidate =
    if starts_with candidate (temporary_prefix game_id)
    then some candidate
    else if validate_remote_relative_path candidate && is_temporary_pair (split b'/' candidate)
    then resolve game_id candidate
    else none

unfoldable pub is_contained : Text → Text → Bool
is_contained prefix path =
    let remainder = drop (length prefix) path in
    starts_with path prefix
    && not (text_eq remainder [])
    && not (any_char (λ c. c == b'/') remainder)
    && not (text_eq remainder (codes "."))
    && not (text_eq remainder (codes ".."))

unfoldable pub only_contained : Text → Option Text → Option Text
only_contained prefix none = none
only_contained prefix (some path) = if is_contained prefix path then some path else none

-- `_resolve_temporary_candidate`
unfoldable pub resolve_temporary_candidate : Text → Text → Option Text
resolve_temporary_candidate game_id candidate =
    only_contained (temporary_prefix game_id) (located game_id candidate)

-- `path.rsplit("/", 1)[-1]`
abbrev pub last_part : List Text → Text
last_part [] = []
last_part (part ∷ []) = part
last_part (part ∷ next ∷ rest) = last_part (next ∷ rest)

unfoldable pub basename : Text → Text
basename path = last_part (split b'/' path)

-- `_protected_by_operation`
unfoldable pub protected_by_operation : Text → Text → Bool
protected_by_operation name operation_id =
    starts_with name (operation_id ++ codes ".")
    || text_eq name (codes "manifest-" ++ (operation_id ++ codes ".json"))
    || text_eq name (codes "history-" ++ (operation_id ++ codes ".json"))

abbrev pub Resolved : Type 0
Resolved = List (Text × Text)

abbrev pub item : Text → Text → TemporaryCandidateAction → TemporaryCandidateResult
item candidate path action = record {
  candidate = candidate;
  storage_path = some path;
  action = action;
}

-- The items of what is left alone.
unfoldable pub skip_all : Resolved → List TemporaryCandidateResult
skip_all [] = []
skip_all ((candidate, path) ∷ rest) = item candidate path skipped ∷ skip_all rest

-- The two lists of the first loop.
pub record Sorted : Type 0 where
  pub violations : List TemporaryCandidateResult
  pub resolved : Resolved

-- An item's constructor raises on an empty candidate.
unfoldable pub sort_one : Text → Option Text → Sorted → Option Sorted
sort_one candidate none s = do
  require (not (text_eq candidate []))
  some (record s {
    violations =
        record { candidate = candidate; storage_path = none; action = path_violation }
        ∷ s.violations;
  })
sort_one candidate (some path) s = some (record s { resolved = (candidate, path) ∷ s.resolved })

unfoldable pub sort_candidates : Text → List Text → Option Sorted
sort_candidates game_id [] = some (record { violations = []; resolved = [] })
sort_candidates game_id (candidate ∷ rest) =
    sort_candidates game_id rest
    >>= sort_one candidate (resolve_temporary_candidate game_id candidate)

-- Whether the name belongs to the operation that holds the lock.
abbrev pub is_protected : Option Text → Text → Bool
is_protected none name = false
is_protected (some operation_id) name = protected_by_operation name operation_id

-- `inspection.document.operation_id`, if there is a document
abbrev pub operation_of : Option LockDocument → Option Text
operation_of none = none
operation_of (some document) = some document.operation_id
