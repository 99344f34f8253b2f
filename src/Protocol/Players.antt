-- ===== src/Protocol/Players.antt =====
-- protocol/players.py: the relay order of the human players.
pub mod Rotation
use civ4_turn_relay.Prelude.{
  ℕ, zero, suc, ◌+◌, ◌%◌, ◌==◌, length, if◌then◌else◌, Bool, not, Option, none, some, List, [], ◌∷◌,
  Text, text_eq,
}
use civ4_turn_relay.Prelude.Maybe.{◌>>=◌, ◌>>◌, require}
use civ4_turn_relay.Domain.Ids.{validate_player_id}
use civ4_turn_relay.Domain.Manifest.{Manifest, player_ids}

-- `ids.index(pivot)`; no value where it raises.
unfoldable pub index : List Text → Text → Option ℕ
index [] pivot = none
index (x ∷ xs) pivot =
    let rest = index xs pivot in if text_eq x pivot then some zero else (do i ← rest; some (suc i))

unfoldable pub get_elem? : List Text → ℕ → Option Text
get_elem? [] i = none
get_elem? (x ∷ xs) zero = some x
get_elem? (x ∷ xs) (suc i) = get_elem? xs i

-- `ids[(ids.index(pivot) + 1) % len(ids)]`
unfoldable pub after : List Text → Text → Option Text
after ids pivot = do i ← index ids pivot; get_elem? ids ((i + 1) % length ids)

unfoldable pub next_human_player_id : Manifest → Text → Option Text
next_human_player_id m pivot = do
  require (not (length m.players == 0))
  require (validate_player_id pivot)
  after (player_ids m.players) pivot
