-- ===== src/Local/Records/MemberLaws.antt =====
-- local/records.py: each way to read a member reads back what was written.
use civ4_turn_relay.Prelude.{text_eq, ◌≡◌, refl, true, Option, none, some, List, Text, codes, Bool}
use civ4_turn_relay.Domain.Json.{Fields, from_list, object, array, string}
use civ4_turn_relay.Domain.Serialization.{
  has_key, get, get_optional_string, get_array, get_optional_object,
}
use civ4_turn_relay.Domain.Config.{
  OperationalState, reconciling, waiting_for_my_first_save, waiting_for_other_player, downloading,
  my_turn_downloaded, civ_running, outgoing_save_detected, uploading, error,
}
use civ4_turn_relay.Domain.Manifest.{optional}
use civ4_turn_relay.Domain.Manifest.Codec.{optional_string, hash_values}
use civ4_turn_relay.Domain.Manifest.RoundTrip.{to_list-from_list, hashes_lem}
use civ4_turn_relay.Local.Records.Types.{digests_valid}
use civ4_turn_relay.Local.Records.Mappings.{nullable, state_name}
use civ4_turn_relay.Local.Records.Whole.{
  read_member, read_identity, raw_member, read_digests, digests_from, read_text, read_state,
  parse_operational_state, find_state, all_states,
}

module _ {ℓ} {A : Type ℓ} (read : Fields → Option A) (write : A → Fields) (valid : A → Bool)
    (back : (a : A) → valid a ≡ true → read (write a) ≡ some a) (mapping : Fields) (key : Text)
    (present : has_key key mapping ≡ true) where
  pub member_lem :
      (o : Option A)
      → get mapping key ≡ some (nullable (λ a. object (write a)) o)
      → optional valid o ≡ true
      → read_member read mapping key ≡ some o
  unfolding read_member raw_member get_optional_object
  member_lem none e v = rw (present, e, get_optional_object) refl
  member_lem (some a) e v = rw (present, e, get_optional_object) (rw (back a v) refl)

  pub identity_lem :
      ((a : A) → has_key (codes "process_create_time_ns") (write a) ≡ true)
      → (o : Option A) → get mapping key ≡ some (nullable (λ a. object (write a)) o)
      → optional valid o ≡ true
      → read_identity read mapping key ≡ some o
  unfolding read_identity raw_member get_optional_object
  identity_lem token none e v = rw (present, e, get_optional_object) refl
  identity_lem token (some a) e v =
      rw (present, e, get_optional_object) (rw (token a) (rw (back a v) refl))

module _ (mapping : Fields) (key : Text) (present : has_key key mapping ≡ true) where
  pub text_lem :
      (o : Option Text)
      → get mapping key ≡ some (optional_string o)
      → read_text mapping key ≡ some o
  unfolding read_text get_optional_string
  text_lem none e = rw (present, e, get_optional_string) refl
  text_lem (some t) e = rw (present, e, get_optional_string) refl

  pub digests_lem :
      (hs : List Text)
      → get mapping key ≡ some (array (from_list (hash_values hs)))
      → digests_valid hs ≡ true
      → read_digests mapping key ≡ some hs
  unfolding read_digests get_array digests_from
  digests_lem hs e v =
      rw (present, e, get_array)
        (rw (to_list-from_list (hash_values hs)) (rw (hashes_lem hs) (rw v refl)))

find_state_lem : (s : OperationalState) → find_state (state_name s) all_states ≡ some s
unfolding find_state state_name text_eq
find_state_lem reconciling = refl
find_state_lem waiting_for_my_first_save = refl
find_state_lem waiting_for_other_player = refl
find_state_lem downloading = refl
find_state_lem my_turn_downloaded = refl
find_state_lem civ_running = refl
find_state_lem outgoing_save_detected = refl
find_state_lem uploading = refl
find_state_lem error = refl

pub state_lem :
    (mapping : Fields) (o : Option OperationalState)
    → has_key (codes "last_operational_state") mapping ≡ true
    → get mapping (codes "last_operational_state") ≡ some (nullable (λ s. string (state_name s)) o)
    → read_state mapping ≡ some o
unfolding read_state parse_operational_state
state_lem mapping none present e = rw (present, e, parse_operational_state) refl
state_lem mapping (some s) present e =
    rw (present, e, parse_operational_state) (rw (find_state_lem s) refl)
