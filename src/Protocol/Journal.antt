-- ===== src/Protocol/Journal.antt =====
-- protocol/journal.py: the operation journal of a client, `InMemoryOperationJournal`. A call that
-- raises on its arguments gives no value.
use civ4_turn_relay.Prelude.{
  ℕ, Bool, true, false, not, none, ◌&&◌, ◌||◌, Option, some, List, [], ◌∷◌, Text, text_eq,
}
use civ4_turn_relay.Prelude.Maybe.{◌>>◌, require}
use civ4_turn_relay.Prelude.Dict.{Dict, lookup, insert, remove}
use civ4_turn_relay.Domain.Ids.{
  validate_game_id, validate_operation_id, validate_client_id, validate_player_id,
  validate_sha256_hex,
}
use civ4_turn_relay.Protocol.Classify.{PriorAttemptEvidence}

pub record InProgressHandoff : Type 0 where
  pub game_id : Text
  pub operation_id : Text
  pub client_id : Text
  pub player_id : Text
  pub sha256 : Text
  pub step_reached : Option Text
  pub protocol_sequence : Option ℕ

-- A member that must be omitted instead of empty.
abbrev pub not_empty : Option Text → Bool
not_empty none = true
not_empty (some t) = not (text_eq t [])

-- `InProgressHandoff.__post_init__`
unfoldable pub in_progress_valid : InProgressHandoff → Bool
in_progress_valid p =
    validate_game_id p.game_id
    && validate_operation_id p.operation_id
    && validate_client_id p.client_id
    && validate_player_id p.player_id
    && validate_sha256_hex p.sha256
    && not_empty p.step_reached

-- The two sets of pairs, and the dictionary.
pub record Journal : Type 0 where
  pub attempts : List (Text × Text)
  pub historical_acceptances : List (Text × Text)
  pub in_progress : Dict InProgressHandoff

abbrev pub empty_journal : Journal
empty_journal = record { attempts = []; historical_acceptances = []; in_progress = [] }

-- `key in pairs`
unfoldable pub has_pair : Text → Text → List (Text × Text) → Bool
has_pair game_id sha256 [] = false
has_pair game_id sha256 ((g, h) ∷ pairs) =
    (text_eq g game_id && text_eq h sha256) || has_pair game_id sha256 pairs

-- `_hash_key` returns.
unfoldable pub hash_key_valid : Text → Text → Bool
hash_key_valid game_id sha256 = validate_game_id game_id && validate_sha256_hex sha256

unfoldable pub record_handoff_attempt : Text → Text → Journal → Option Journal
record_handoff_attempt game_id sha256 j = do
  require (hash_key_valid game_id sha256)
  some (record j { attempts = (game_id, sha256) ∷ j.attempts })

unfoldable pub record_historical_acceptance : Text → Text → Journal → Option Journal
record_historical_acceptance game_id sha256 j = do
  require (hash_key_valid game_id sha256)
  some (record j { historical_acceptances = (game_id, sha256) ∷ j.historical_acceptances })

unfoldable pub evidence_for_hash : Text → Text → Journal → Option PriorAttemptEvidence
evidence_for_hash game_id sha256 j = do
  require (hash_key_valid game_id sha256)
  some (record {
    handoff_attempted_for_hash = has_pair game_id sha256 j.attempts;
    historically_accepted_for_hash = has_pair game_id sha256 j.historical_acceptances;
  })

unfoldable pub in_progress_handoff : Text → Journal → Option (Option InProgressHandoff)
in_progress_handoff game_id j = do
  require (validate_game_id game_id)
  some (lookup game_id j.in_progress)

-- The record is built by the caller, which raises if it is not valid.
unfoldable pub begin_handoff : InProgressHandoff → Journal → Option Journal
begin_handoff p j = do
  require (in_progress_valid p)
  record_handoff_attempt p.game_id p.sha256
      (record j { in_progress = insert p.game_id p j.in_progress })

unfoldable pub clear_in_progress : Text → Journal → Option Journal
clear_in_progress game_id j = do
  require (validate_game_id game_id)
  some (record j { in_progress = remove game_id j.in_progress })
