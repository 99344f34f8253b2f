-- ===== src/Protocol/Temporary/Contained.antt =====
-- protocol/cleanup.py: what is resolved lies directly in the directory of temporary objects.
use civ4_turn_relay.Prelude.{◌≡◌, true, Option, none, some, List, [], ◌∷◌, Text, arith}
use civ4_turn_relay.Domain.Paths.{all_of}
use civ4_turn_relay.Protocol.Temporary.Candidates.{
  temporary_prefix, located, is_contained, only_contained, resolve_temporary_candidate, Resolved,
  Sorted, sort_one, sort_candidates,
}

only_contained-lem :
    (prefix path : Text) (o : Option Text)
    → only_contained prefix o ≡ some path
    → is_contained prefix path ≡ true
unfolding only_contained
only_contained-lem prefix path none h = ground arith
only_contained-lem prefix path (some p) h = ground arith

-- A candidate that resolves gives a path of one component below `{game}/temporary/`, which is
-- neither empty nor `.` nor `..`.
pub resolve_temporary_candidate-is_contained :
    (game_id candidate path : Text)
    → resolve_temporary_candidate game_id candidate ≡ some path
    → is_contained (temporary_prefix game_id) path ≡ true
unfolding resolve_temporary_candidate
resolve_temporary_candidate-is_contained game_id candidate path h =
    only_contained-lem (temporary_prefix game_id) path (located game_id candidate) h

-- Every path of the list is contained.
abbrev pub AllContained : Text → Resolved → Type 0
AllContained game_id resolved =
    all_of (λ (e : Text × Text). is_contained (temporary_prefix game_id) e.1) resolved ≡ true

pub sort-AllContained :
    (game_id : Text) (candidates : List Text) (s : Sorted)
    → sort_candidates game_id candidates ≡ some s
    → AllContained game_id s.resolved
unfolding sort_candidates sort_one all_of
sort-AllContained game_id [] s h = ground arith
sort-AllContained game_id (c ∷ cs) s h =
    grind (arith, sort-AllContained game_id cs, resolve_temporary_candidate-is_contained game_id c)
