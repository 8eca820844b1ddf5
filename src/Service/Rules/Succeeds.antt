-- ===== src/Service/Rules/Succeeds.antt =====
-- The rules for steps that are known to pass: what an operation that succeeds goes through.
use touch_connect.Prelude.{Bool, true, ◌≡◌, Option, some}
use touch_connect.GoMap.{get}
use touch_connect.Domain.Errors.{Error, Result}
use touch_connect.Domain.Model.{Attempt}
use touch_connect.Exec.{Exec, ensure, ◌>>=◌, ◌>>◌}
use touch_connect.Memory.Store.{Store}
use touch_connect.Memory.Ledger.{update_attempt}
use touch_connect.Service.World.{World, on_store, read, found}
use touch_connect.Service.Rules.{Ends}
use touch_connect.Service.Rules.Writes.{with_attempt_written}

module _ {B : Type 0} {Q : Result B × World → Type 0} {w : World} where
  pub Ends-ensure-true :
      (b : Bool) (e : Error) (k : Exec World B) → b ≡ true → Ends Q k w → Ends Q (ensure b e >> k) w
  unfolding ◌>>=◌
  Ends-ensure-true b e k passes h = record { holds = rw passes h.holds }

  pub Ends-lookup_some :
      {A : Type 0} (g : Store → Option A) (e : Error) (f : A → Exec World B) {a : A}
      → g w.store ≡ some a
      → Ends Q (f a) w
      → Ends Q ((read g >>= found e) >>= f) w
  unfolding ◌>>=◌ read found
  Ends-lookup_some g e f there h = record { holds = rw there h.holds }

  pub Ends-update_attempt-some :
      (a : Attempt) (k : Exec World B) {x : Attempt}
      → get w.store.attempts a.attempt_ref ≡ some x
      → Ends Q k (with_attempt_written a w)
      → Ends Q (on_store (update_attempt a) >> k) w
  unfolding ◌>>=◌ on_store update_attempt
  Ends-update_attempt-some a k there h = record { holds = rw there h.holds }
