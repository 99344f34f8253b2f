-- ===== src/Protocol/Classify/Table.antt =====
-- The precedence table at the head of protocol/hash_classify.py, as one condition for each class.
use civ4_turn_relay.Prelude.{
  [], ◌∷◌, ◌≡◌, ◌↔◌, get_last?, true, false, Option, none, some, List, Text, arith, text_eq_iff,
  contains,
}
use civ4_turn_relay.Domain.Paths.{all_of}
use civ4_turn_relay.Domain.Ids.{validate_player_id, validate_sha256_hex}
use civ4_turn_relay.Domain.Manifest.{optional}
use civ4_turn_relay.Protocol.Classify.{
  HashClassification, new_handoff_candidate, reject_incoming, idempotent_ack, stale_replay,
  journal_only_ack, PriorAttemptEvidence, is_value, classify, classify_candidate_hash,
}

is_value_iff : (o : Option Text) (t : Text) → (is_value o t ≡ true) ↔ (o ≡ some t)
unfolding is_value
is_value_iff none t = ground arith
is_value_iff (some v) t = ground (arith, text_eq_iff t v)

-- The latest hash is in the history.
contains-last :
    (hashes : List Text) (digest : Text)
    → get_last? hashes ≡ some digest
    → contains hashes digest ≡ true
unfolding contains
contains-last [] digest h = cc
contains-last (x ∷ []) digest h = ground (arith, text_eq_iff x digest)
contains-last (x ∷ y ∷ ys) digest h = ground (arith, contains-last (y ∷ ys) digest h)

module _ (digest : Text) (hashes : List Text) (local current : Text) (sender : Option Text)
    (e : PriorAttemptEvidence) where
  abbrev IsLatest : Type 0
  IsLatest = get_last? hashes ≡ some digest

  -- The latest hash, submitted by the current recipient.
  abbrev Incoming : Type 0
  Incoming = IsLatest × (local ≡ current)

  -- The latest hash, from its sender, who has tried before.
  abbrev Repeated : Type 0
  Repeated = IsLatest × (sender ≡ some local) × (e.handoff_attempted_for_hash ≡ true)

  -- What each class means, on its own: the precedence in words, with no order of tests.
  abbrev pub Means : HashClassification → Type 0
  Means reject_incoming = Incoming
  Means idempotent_ack = (¬ Incoming) × Repeated
  Means journal_only_ack = (¬ Incoming) × (¬ Repeated) × (e.historically_accepted_for_hash ≡ true)
  Means new_handoff_candidate =
      (contains hashes digest ≡ false) × (e.historically_accepted_for_hash ≡ false)
  Means stale_replay =
      (contains hashes digest ≡ true)
      × (e.historically_accepted_for_hash ≡ false)
      × (¬ Incoming)
      × (¬ Repeated)

  -- The ladder of tests gives a class exactly where the facts mean it.
  classify-Means :
      (c : HashClassification) → (classify digest hashes local current sender e ≡ c) ↔ Means c
  unfolding classify
  classify-Means new_handoff_candidate = ground (
    arith,
    is_value_iff (get_last? hashes) digest,
    is_value_iff sender local,
    text_eq_iff local current,
    contains-last hashes digest,
  )
  classify-Means _ = ground (
    arith,
    is_value_iff (get_last? hashes) digest,
    is_value_iff sender local,
    text_eq_iff local current,
    contains-last hashes digest,
  )

  -- The classification of valid arguments never raises, and gives a class exactly if its row of the
  -- table holds of the facts.
  pub classify_candidate_hash-Means :
      validate_sha256_hex digest ≡ true
      → validate_player_id local ≡ true
      → validate_player_id current ≡ true
      → optional validate_player_id sender ≡ true
      → all_of validate_sha256_hex hashes ≡ true
      → (c : HashClassification)
      → (classify_candidate_hash digest hashes local current sender e ≡ some c) ↔ Means c
  unfolding classify_candidate_hash
  classify_candidate_hash-Means d l k s h c =
      rw (d, l, k, s, h) (ground (arith, (classify-Means c).0, (classify-Means c).1))
