-- ===== src/Exec.antt =====
-- Operations on a state that may fail: what was written before an error stays written, as in Go.
use touch_connect.Prelude.{Bool, true, false}
use touch_connect.Domain.Errors.{Error, Result, ok, err}

abbrev pub Exec : Type 0 → Type 0 → Type 0
Exec S A = S → Result A × S

module _ {S : Type 0} where
  unfoldable pub pure : {A : Type 0} → A → Exec S A
  pure a s = (ok a, s)

  unfoldable pub fail : {A : Type 0} → Error → Exec S A
  fail e s = (err e, s)

  -- A pure check.
  unfoldable pub lift : {A : Type 0} → Result A → Exec S A
  lift r s = (r, s)

  -- if !condition { return e }
  unfoldable pub ensure : Bool → Error → Exec S (Unit {0})
  ensure true e s = (ok tt, s)
  ensure false e s = (err e, s)

  abbrev pub continue : {A B : Type 0} → (A → Exec S B) → Result A × S → Result B × S
  continue f (ok a, s) = f a s
  continue f (err e, s) = (err e, s)

  infixl 5 ◌>>=◌ ◌>>◌
  -- Opening this opens the four above too.
  unfoldable pub ◌>>=◌ : {A B : Type 0} → Exec S A → (A → Exec S B) → Exec S B
  unfolding pure fail lift ensure
  ◌>>=◌ m f s = continue f (m s)

  abbrev pub ◌>>◌ : {B : Type 0} → Exec S (Unit {0}) → Exec S B → Exec S B
  m >> k = m >>= λ _. k
