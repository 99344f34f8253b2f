-- ===== src/Protocol/Action.antt =====
-- How the protocol's functions run: over a storage adapter's state and a journal, with the raise of a
-- `DomainValidationError` as no result. What was done before a raise stays done.
pub mod Keeps
pub mod Ensures
use civ4_turn_relay.Prelude.{Bool, Option, none, some}
use civ4_turn_relay.Prelude.Maybe.{require}
use civ4_turn_relay.Storage.Port.{Reply, Op}
use civ4_turn_relay.Protocol.Journal.{Journal}

pub record World (S : Type 0) : Type 0 where
  pub storage : S
  pub journal : Journal

abbrev pub Action : Type 0 → Type 0 → Type 0
Action S A = World S → Option A × World S

module _ {S A : Type 0} where
  unfoldable pub pure : A → Action S A
  pure a w = (some a, w)

  -- A call that may raise, and touches neither state.
  unfoldable pub lift : Option A → Action S A
  lift o w = (o, w)

  -- A call of the adapter that cannot fail.
  unfoldable pub read_storage : (S → A) → Action S A
  read_storage f w = (some (f w.storage), w)

  unfoldable pub read_journal : (Journal → Option A) → Action S A
  read_journal f w = (f w.journal, w)

module _ {S A B : Type 0} where
  abbrev pub continue : Option A → (A → Action S B) → Action S B
  continue none f w = (none, w)
  continue (some a) f w = f a w

  infixl 5 ◌>>=◌ ◌>>◌
  unfoldable pub ◌>>=◌ : Action S A → (A → Action S B) → Action S B
  ◌>>=◌ m f w = let (r, w') = m w in continue r f w'

  abbrev pub ◌>>◌ : Action S A → Action S B → Action S B
  m >> n = m >>= λ _. n

  -- `try: operation() except …`: the handler is a function of the reply.
  unfoldable pub call : Op S A → (Reply A → Action S B) → Action S B
  call operation handler w =
      let (r, s) = operation w.storage in handler r (record w { storage = s })

module _ {S : Type 0} where
  unfoldable pub ensure : Bool → Action S (Unit {0})
  ensure passed w = (require passed, w)

  abbrev pub changed : World S → Option Journal → Option (Unit {0}) × World S
  changed w none = (none, w)
  changed w (some j) = (some tt, record w { journal = j })

  unfoldable pub write_journal : (Journal → Option Journal) → Action S (Unit {0})
  write_journal f w = changed w (f w.journal)
