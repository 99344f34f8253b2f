-- ===== src/Domain/Config.antt =====
-- domain/config.py and domain/states.py: the per-match configuration, the turn-handling mode and the
-- operational states.
use civ4_turn_relay.Prelude.{
  ◌==◌, length, Bool, not, ◌&&◌, Option, none, some, List, Text, text_eq, contains, false, [],
  codes,
}
use civ4_turn_relay.Domain.Libraries.{Libraries}
use civ4_turn_relay.Domain.Ids.{validate_game_id, validate_player_id}
use civ4_turn_relay.Domain.Paths.{all_of, any_char, validate_windows_local_path}
use civ4_turn_relay.Domain.Manifest.{Player, player_valid, player_ids, all_distinct}

pub data TurnHandlingMode : Type 0 where
  standard fully_managed : TurnHandlingMode

pub data OperationalState : Type 0 where
  reconciling waiting_for_my_first_save waiting_for_other_player downloading my_turn_downloaded
        civ_running outgoing_save_detected uploading error :
      OperationalState

pub record MatchConfig : Type 0 where
  pub game_id : Text
  pub display_name : Text
  pub players : List Player
  pub local_player_id : Text
  pub launch_profile : Option Text
  pub mod_name : Option Text
  pub pbem_save_directory : Text
  pub filename_glob : Text
  pub turn_handling_mode : TurnHandlingMode

abbrev present_and_empty : Option Text → Bool
present_and_empty none = false
present_and_empty (some t) = text_eq t []

-- `SaveMatchingRules.__post_init__`
unfoldable pub save_matching_valid : Text → Bool
unfolding any_char
save_matching_valid filename_glob =
    not (text_eq filename_glob [])
    && not (text_eq filename_glob (codes "."))
    && not (text_eq filename_glob (codes ".."))
    && not (any_char (λ c. c == b'/') filename_glob)
    && not (any_char (λ c. c == 92) filename_glob)

-- `MatchConfig.__post_init__`, on players and rules that exist.
unfoldable pub config_post_init : Libraries → MatchConfig → Bool
config_post_init lib c =
    validate_game_id c.game_id
    && not (text_eq c.display_name [])
    && not (length c.players == 0)
    && all_distinct (player_ids c.players)
    && validate_player_id c.local_player_id
    && contains (player_ids c.players) c.local_player_id
    && not (present_and_empty c.launch_profile)
    && not (present_and_empty c.mod_name)
    && validate_windows_local_path lib.is_windows_absolute c.pbem_save_directory

-- The components exist, and the constructor returns.
unfoldable pub config_valid : Libraries → MatchConfig → Bool
unfolding all_of
config_valid lib c =
    all_of player_valid c.players && save_matching_valid c.filename_glob && config_post_init lib c
