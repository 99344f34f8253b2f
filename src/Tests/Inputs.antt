-- ===== src/Tests/Inputs.antt =====
-- A match of two players on an in-memory storage, with stand-ins for the libraries.
use civ4_turn_relay.Prelude.{
  ℕ, zero, suc, ◌+◌, ◌%◌, leb, ◌&&◌, length, true, false, some, none, [], ◌∷◌, Text, codes,
}
use civ4_turn_relay.Domain.Libraries.{Libraries}
use civ4_turn_relay.Domain.Manifest.{Manifest}
use civ4_turn_relay.Domain.Manifest.Codec.{to_json_bytes}
use civ4_turn_relay.Storage.Faults
use civ4_turn_relay.Storage.Fake.{FakeStorage, default_capabilities}
use civ4_turn_relay.Protocol.Action.{World}
use civ4_turn_relay.Protocol.Journal.{empty_journal}
use civ4_turn_relay.Protocol.Handoff.Request.{HandoffRequest}
use civ4_turn_relay.Tests.Codec.{dumps, loads}

abbrev pub repeat : ℕ → ℕ → Text
repeat zero c = []
repeat (suc n) c = c ∷ repeat n c

-- A digest that depends on the length.
abbrev pub libraries : Libraries
libraries = record {
  sha256_hexdigest = λ b. repeat 64 (48 + length b % 10);
  json_dumps = dumps;
  json_loads = loads;
  json_escapes = λ b. false;
  is_decimal = λ c. leb 48 c && leb c 57;
  strptime = λ s. true;
  advance_seconds = λ s n. some s;
  is_windows_name = λ s. true;
  is_windows_absolute = λ s. true;
  float_of = λ n. n ∷ [];
  float_of_negative = λ n. n ∷ [];
}

abbrev pub alice : Text
alice = codes "alice"

abbrev pub bob : Text
bob = codes "bob"

abbrev pub first_manifest : Manifest
first_manifest = record {
  schema_version = 1;
  game_id = codes "demo";
  display_name = codes "Demo";
  players =
      record { id = alice; display_name = codes "Alice" }
      ∷ record { id = bob; display_name = codes "Bob" }
      ∷ [];
  protocol_sequence = 0;
  current_player_id = alice;
  last_sender_id = none;
  accepted_save = none;
  accepted_save_hashes = [];
  previous_manifest_ref = none;
  protocol = record { min_client_protocol = 1; last_operation_id = none };
}

abbrev pub request : HandoffRequest
request = record {
  game_id = codes "demo";
  local_player_id = alice;
  client_id = codes "client";
  operation_id = codes "01234567-0123-0123-0123-0123456789ab";
  outgoing_bytes = 1 ∷ 2 ∷ 3 ∷ [];
  original_filename = codes "turn.CivBeyondSwordSave";
  now_utc = codes "2026-01-02T03:04:05Z";
  max_save_bytes = 1000;
}

-- The first manifest, published.
abbrev pub storage : FakeStorage
storage = record {
  capabilities = default_capabilities;
  snapshot = record {
    directories =
        codes "demo"
        ∷ codes "demo/locks"
        ∷ codes "demo/saves"
        ∷ codes "demo/history"
        ∷ codes "demo/temporary"
        ∷ [];
    files = (codes "demo/manifest.json", to_json_bytes libraries first_manifest) ∷ [];
  };
  faults = Faults.no_faults;
}

abbrev pub world : World FakeStorage
world = record { storage = storage; journal = empty_journal }
