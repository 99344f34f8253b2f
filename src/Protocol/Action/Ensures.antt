-- ===== src/Protocol/Action/Ensures.antt =====
-- What an action ensures of its result and of a view of the storage, before and after: one rule for
-- each way to build an action.
use civ4_turn_relay.Prelude.{◌≡◌, refl, Bool, true, false, Option, none, some, if◌then◌else◌, subst}
use civ4_turn_relay.Storage.Port.{Reply, Op}
use civ4_turn_relay.Protocol.Action.{World, Action, pure, lift, ◌>>=◌, call, continue}
use civ4_turn_relay.Protocol.Action.Keeps.{Keeps, of_storage}

module _ {S X : Type 0} (see : S → X) where
  -- From every world, `R` relates the result to what is seen before and after.
  pub record Ensures {A : Type 0} (R : Option A → X → X → Type 0) (m : Action S A) : Type 0 where
    pub at : (w : World S) → R (m w).0 (see w.storage) (see (m w).1.storage)

module _ {S X A : Type 0} {see : S → X} {R : Option A → X → X → Type 0} where
  pub Ensures-pure : (a : A) → ((x : X) → R (some a) x x) → Ensures see R (pure a)
  unfolding pure
  Ensures-pure a h = record { at = λ w. h (see w.storage) }

  pub Ensures-if :
      (b : Bool) (m n : Action S A)
      → (b ≡ true → Ensures see R m)
      → (b ≡ false → Ensures see R n)
      → Ensures see R (if b then m else n)
  Ensures-if true m n km kn = km refl
  Ensures-if false m n km kn = kn refl

module _ {S X A B : Type 0} {see : S → X} {R : Option B → X → X → Type 0} where
  -- What stands before leaves the view as it was.
  pub Ensures-bind :
      (m : Action S A) (f : A → Action S B)
      → Keeps (of_storage see) m
      → ((x : X) → R none x x)
      → ((a : A) → Ensures see R (f a))
      → Ensures see R (m >>= f)
  unfolding ◌>>=◌
  Ensures-bind m f km kn kf = record { at = λ w. rest w (m w).0 (m w).1 (km.same w) }
    where
      rest :
          (w : World S) (r : Option A) (w' : World S)
          → see w'.storage ≡ see w.storage
          → R (continue r f w').0 (see w.storage) (see (continue r f w').1.storage)
      rest w none w' e = rw e (kn (see w.storage))
      rest w (some a) w' e = subst (λ x. R (f a w').0 x (see (f a w').1.storage)) e ((kf a).at w')

  -- So too, where what the first action returns has a property.
  pub Ensures-bind_such :
      (P : A → Type 0) (m : Action S A) (f : A → Action S B)
      → Keeps (of_storage see) m
      → ((w : World S) (a : A) → (m w).0 ≡ some a → P a)
      → ((x : X) → R none x x)
      → ((a : A) → P a → Ensures see R (f a))
      → Ensures see R (m >>= f)
  unfolding ◌>>=◌
  Ensures-bind_such P m f km such kn kf = record {
    at = λ w. rest w (m w).0 refl (m w).1 (km.same w);
  }
    where
      rest :
          (w : World S) (r : Option A)
          → (m w).0 ≡ r
          → (w' : World S) → see w'.storage ≡ see w.storage
          → R (continue r f w').0 (see w.storage) (see (continue r f w').1.storage)
      rest w none h w' e = rw e (kn (see w.storage))
      rest w (some a) h w' e =
          subst (λ x. R (f a w').0 x (see (f a w').1.storage)) e ((kf a (such w a h)).at w')

  -- The call that may raise gives its equation to what follows.
  pub Ensures-lift :
      (o : Option A) (f : A → Action S B)
      → ((x : X) → R none x x)
      → ((a : A) → o ≡ some a → Ensures see R (f a))
      → Ensures see R (lift o >>= f)
  unfolding ◌>>=◌ lift
  Ensures-lift none f kn kf = record { at = λ w. kn (see w.storage) }
  Ensures-lift (some a) f kn kf = record { at = λ w. (kf a refl).at w }

  pub Ensures-call :
      (operation : Op S A) (handler : Reply A → Action S B)
      → ((s : S) → see (operation s).1 ≡ see s)
      → ((r : Reply A) → Ensures see R (handler r))
      → Ensures see R (call operation handler)
  unfolding call
  Ensures-call operation handler ko kh = record {
    at = λ w.
        subst
          (λ x.
            R (handler (operation w.storage).0 (record w { storage = (operation w.storage).1 })).0 x
              (see
                (handler (operation w.storage).0
                  (record w { storage = (operation w.storage).1 })).1.storage))
          (ko w.storage)
          ((kh (operation w.storage).0).at (record w { storage = (operation w.storage).1 }));
  }
