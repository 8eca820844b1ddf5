-- ===== src/GoMap.antt =====
-- Go's `map[string]V`, as an association list. Go leaves the order of iteration open; the order of first
-- insertion stands for it.
use touch_connect.Prelude.{String, Bool, ◌==◌, if◌then◌else◌, Option, none, some, List, [], ◌∷◌}
pub mod Laws

abbrev pub Map {ℓ} : Type ℓ → Type ℓ
Map V = List (String × V)

module _ {ℓ} {V : Type ℓ} where
  -- m[k], with the `ok` of Go's two-valued read.
  unfoldable pub get : Map V → String → Option V
  get [] k = none
  get ((j, v) ∷ m) k = if j == k then some v else get m k

  -- m[k] = v
  unfoldable pub put : Map V → String → V → Map V
  put [] k v = (k, v) ∷ []
  put ((j, w) ∷ m) k v = if j == k then (j, v) ∷ m else (j, w) ∷ put m k v

  -- The keys, in the order of iteration.
  unfoldable pub keys : Map V → List String
  keys [] = []
  keys ((k, v) ∷ m) = k ∷ keys m
