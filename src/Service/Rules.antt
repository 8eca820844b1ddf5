-- ===== src/Service/Rules.antt =====
-- How an operation of the service ends: one rule for each kind of step of its do block.
pub mod Writes
pub mod Succeeds
use touch_connect.Prelude.{◌≡◌, refl, ap, Bool, true, false, Option, none, some}
use touch_connect.Domain.Errors.{Error, Result, ok, err}
use touch_connect.Exec.{Exec, pure, lift, ensure, fail, continue, ◌>>=◌, ◌>>◌}
use touch_connect.Memory.Store.{Store}
use touch_connect.Service.World.{World, read, found}

-- Run in `w`, the operation ends in an outcome that satisfies `Q`.
pub record Ends {B : Type 0} (Q : Result B × World → Type 0) (m : Exec World B) (w : World)
    : Type 0 where
  pub holds : Q (m w)

module _ {B : Type 0} {Q : Result B × World → Type 0} {w : World} where
  pub Ends-pure : (b : B) → Q (ok b, w) → Ends Q (pure b) w
  unfolding pure
  Ends-pure b q = record { holds = q }

  pub Ends-fail : (e : Error) → Q (err e, w) → Ends Q (fail e) w
  unfolding fail
  Ends-fail e q = record { holds = q }

  pub Ends-ensure :
      (b : Bool) (e : Error) (k : Exec World B)
      → Q (err e, w)
      → (b ≡ true → Ends Q k w)
      → Ends Q (ensure b e >> k) w
  unfolding ◌>>=◌
  Ends-ensure true e k failed passed = record { holds = (passed refl).holds }
  Ends-ensure false e k failed passed = record { holds = failed }

module _ {A B : Type 0} (Q : Result B × World → Type 0) where
  outcome_holds :
      (o : Result A × World) (f : A → Exec World B)
      → ((e : Error) → o.0 ≡ err e → Q (err e, o.1))
      → ((a : A) → o.0 ≡ ok a → Ends Q (f a) o.1)
      → Q (continue f o)
  outcome_holds (ok a, v) f failed passed = (passed a refl).holds
  outcome_holds (err e, v) f failed passed = failed e refl

module _ {A B : Type 0} {Q : Result B × World → Type 0} {w : World} where
  pub Ends-read :
      (g : Store → A) (f : A → Exec World B) → Ends Q (f (g w.store)) w → Ends Q (read g >>= f) w
  unfolding ◌>>=◌ read
  Ends-read g f h = record { holds = h.holds }

  lift_holds :
      (r : Result A) (f : A → Exec World B)
      → ((e : Error) → Q (err e, w))
      → ((a : A) → r ≡ ok a → Ends Q (f a) w)
      → Q ((lift r >>= f) w)
  unfolding ◌>>=◌
  lift_holds (ok a) f failed passed = (passed a refl).holds
  lift_holds (err e) f failed passed = failed e

  pub Ends-lift :
      (r : Result A) (f : A → Exec World B)
      → ((e : Error) → Q (err e, w))
      → ((a : A) → r ≡ ok a → Ends Q (f a) w)
      → Ends Q (lift r >>= f) w
  Ends-lift r f failed passed = record { holds = lift_holds r f failed passed }

  found_holds :
      (e : Error) (o : Option A) (f : A → Exec World B)
      → Q (err e, w)
      → ((a : A) → o ≡ some a → Ends Q (f a) w)
      → Q ((found e o >>= f) w)
  unfolding ◌>>=◌ found
  found_holds e none f failed passed = failed
  found_holds e (some a) f failed passed = (passed a refl).holds

  pub Ends-found :
      (e : Error) (o : Option A) (f : A → Exec World B)
      → Q (err e, w)
      → ((a : A) → o ≡ some a → Ends Q (f a) w)
      → Ends Q (found e o >>= f) w
  Ends-found e o f failed passed = record { holds = found_holds e o f failed passed }

  -- A lookup that ends the operation where it finds nothing.
  pub Ends-lookup :
      (g : Store → Option A) (e : Error) (f : A → Exec World B)
      → Q (err e, w)
      → ((a : A) → g w.store ≡ some a → Ends Q (f a) w)
      → Ends Q ((read g >>= found e) >>= f) w
  unfolding ◌>>=◌ read
  Ends-lookup g e f failed passed = record { holds = found_holds e (g w.store) f failed passed }

  -- A step of several effects, by what is known of its outcome.
  pub Ends-bind :
      (m : Exec World A) (f : A → Exec World B)
      → ((e : Error) → (m w).0 ≡ err e → Q (err e, (m w).1))
      → ((a : A) → (m w).0 ≡ ok a → Ends Q (f a) (m w).1)
      → Ends Q (m >>= f) w
  unfolding ◌>>=◌
  Ends-bind m f failed passed = record { holds = outcome_holds Q (m w) f failed passed }

-- A condition on a result and one on a failure.
abbrev pub Outcome :
    {A : Type 0} → (A → World → Type 0) → (World → Type 0) → Result A × World → Type 0
Outcome P E (ok a, w) = P a w
Outcome P E (err e, w) = E w

module _ {A B : Type 0} {P : A → World → Type 0} {E : World → Type 0}
    (Q : Result B × World → Type 0) where
  after_holds :
      (o : Result A × World) (f : A → Exec World B)
      → Outcome P E o
      → ((e : Error) (v : World) → E v → Q (err e, v))
      → ((a : A) (v : World) → P a v → Ends Q (f a) v)
      → Q (continue f o)
  after_holds (ok a, v) f h failed passed = (passed a v h).holds
  after_holds (err e, v) f h failed passed = failed e v h

  -- A step by the conditions that it is known to end in.
  pub Ends-then :
      {w : World} (m : Exec World A) (f : A → Exec World B)
      → Ends (Outcome P E) m w
      → ((e : Error) (v : World) → E v → Q (err e, v))
      → ((a : A) (v : World) → P a v → Ends Q (f a) v)
      → Ends Q (m >>= f) w
  unfolding ◌>>=◌
  Ends-then {w} m f h failed passed = record { holds = after_holds (m w) f h.holds failed passed }

-- A stronger condition.
pub Ends-weaken :
    {A : Type 0} {Q R : Result A × World → Type 0} {m : Exec World A} {w : World}
    → ((r : Result A × World) → Q r → R r)
    → Ends Q m w
    → Ends R m w
Ends-weaken f h = record { holds = f _ h.holds }
