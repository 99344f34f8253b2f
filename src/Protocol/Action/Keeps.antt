-- ===== src/Protocol/Action/Keeps.antt =====
-- What an action leaves as it was: one rule for each way to build an action.
use civ4_turn_relay.Prelude.{◌≡◌, refl, ◌∙◌, Bool, true, false, Option, none, some, if◌then◌else◌}
use civ4_turn_relay.Storage.Port.{Reply, Op}
use civ4_turn_relay.Protocol.Journal.{Journal}
use civ4_turn_relay.Protocol.Action.{
  World, Action, pure, lift, read_storage, read_journal, ◌>>=◌, call, ensure, write_journal,
  continue, changed,
}

module _ {S A B : Type 0} where
  -- Where the first action returns `a`, what follows runs on it from there.
  pub bind_at :
      (m : Action S A) (f : A → Action S B) (w : World S) (a : A)
      → (m w).0 ≡ some a
      → (m >>= f) w ≡ f a (m w).1
  unfolding ◌>>=◌
  bind_at m f w a e = rw e refl

-- `see` shows the same before and after `m`, whether it returns or raises.
pub record Keeps {S A X : Type 0} (see : World S → X) (m : Action S A) : Type 0 where
  pub same : (w : World S) → see (m w).1 ≡ see w

module _ {S A X : Type 0} {see : World S → X} where
  pub Keeps-pure : (a : A) → Keeps see (pure a)
  unfolding pure
  Keeps-pure a = record { same = λ w. refl }

  pub Keeps-lift : (o : Option A) → Keeps see (lift o)
  unfolding lift
  Keeps-lift o = record { same = λ w. refl }

  pub Keeps-read_storage : (f : S → A) → Keeps see (read_storage f)
  unfolding read_storage
  Keeps-read_storage f = record { same = λ w. refl }

  pub Keeps-read_journal : (f : Journal → Option A) → Keeps see (read_journal f)
  unfolding read_journal
  Keeps-read_journal f = record { same = λ w. refl }

  pub Keeps-if :
      (b : Bool) (m n : Action S A) → Keeps see m → Keeps see n → Keeps see (if b then m else n)
  Keeps-if true m n km kn = km
  Keeps-if false m n km kn = kn

module _ {S A B X : Type 0} {see : World S → X} where
  pub Keeps-bind :
      (m : Action S A) (f : A → Action S B)
      → Keeps see m
      → ((a : A) → Keeps see (f a))
      → Keeps see (m >>= f)
  unfolding ◌>>=◌
  Keeps-bind m f km kf = record { same = λ w. rest (m w).0 (m w).1 ∙ km.same w }
    where
      rest : (r : Option A) (w : World S) → see (continue r f w).1 ≡ see w
      rest none w = refl
      rest (some a) w = (kf a).same w

  -- The call that may raise gives its equation to what follows.
  pub Keeps-lift_bind :
      (o : Option A) (f : A → Action S B)
      → ((a : A) → o ≡ some a → Keeps see (f a))
      → Keeps see (lift o >>= f)
  unfolding ◌>>=◌ lift
  Keeps-lift_bind none f kf = record { same = λ w. refl }
  Keeps-lift_bind (some a) f kf = record { same = λ w. (kf a refl).same w }

module _ {S : Type 0} where
  -- A view of the storage state alone.
  abbrev pub of_storage {ℓ} : {X : Type ℓ} → (S → X) → World S → X
  of_storage see w = see w.storage

  pub Keeps-ensure : {X : Type 0} {see : World S → X} (b : Bool) → Keeps see (ensure b)
  unfolding ensure
  Keeps-ensure b = record { same = λ w. refl }

  pub Keeps-write_journal :
      {X : Type 0} (see : S → X) (f : Journal → Option Journal)
      → Keeps (of_storage see) (write_journal f)
  unfolding write_journal
  Keeps-write_journal see f = record { same = λ w. rest w (f w.journal) }
    where
      rest : (w : World S) (o : Option Journal) → see (changed w o).1.storage ≡ see w.storage
      rest w none = refl
      rest w (some j) = refl

  pub Keeps-call :
      {A B X : Type 0} (see : S → X) (operation : Op S A) (handler : Reply A → Action S B)
      → ((s : S) → see (operation s).1 ≡ see s)
      → ((r : Reply A) → Keeps (of_storage see) (handler r))
      → Keeps (of_storage see) (call operation handler)
  unfolding call
  Keeps-call see operation handler ko kh = record {
    same = λ w.
        (kh (operation w.storage).0).same (record w { storage = (operation w.storage).1 })
        ∙ ko w.storage;
  }

pub ruleset keeps_rules = (
  Keeps-pure, Keeps-lift, Keeps-read_storage, Keeps-read_journal, Keeps-if, Keeps-bind,
  Keeps-ensure, Keeps-write_journal, Keeps-call,
)
