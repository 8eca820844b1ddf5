-- ===== src/Memory/SideEffects.antt =====
-- SaveSideEffectExecution of memory/store.go, called again with the same key and scope.
use touch_connect.Prelude.{
  String, Bool, true, ◌≡◌, refl, sym, ◌∙◌, inl, inr, arith, eq_iff, none, some, [], ◌∷◌,
  Option-cases,
}
use touch_connect.GoMap.{Map, get, put}
use touch_connect.Domain.Errors.{Result, ok, err}
use touch_connect.Domain.Model.{SideEffectExecution}
use touch_connect.Memory.Store.{Store}
use touch_connect.Memory.Ledger.{same_effect, find_effect, save_side_effect_execution}

-- The execution that is found after a new one is added at the end.
find_effect-put :
    (y x : SideEffectExecution) (k : String) (m : Map SideEffectExecution)
    → find_effect y m ≡ none
    → get m k ≡ none
    → same_effect x y ≡ true
    → find_effect y (put m k x) ≡ some x
unfolding find_effect put get
find_effect-put y x k [] none_yet free hit = rw hit
find_effect-put y x k ((j, e) ∷ m) none_yet free hit = ground (arith, find_effect-put y x k m)

-- What is found depends on the key and the scope only.
find_effect-same :
    (x y : SideEffectExecution) (m : Map SideEffectExecution)
    → x.idempotency_key ≡ y.idempotency_key
    → x.protected_scope ≡ y.protected_scope
    → find_effect x m ≡ find_effect y m
unfolding find_effect
find_effect-same x y [] key scope = refl
find_effect-same x y ((k, e) ∷ m) key scope = rw (key, scope, find_effect-same x y m key scope)

-- What was saved or found is found for `y`.
abbrev Again : SideEffectExecution → Result (SideEffectExecution × Bool) × Store → Type 0
Again y (ok (z, deduped), t) = find_effect y t.side_effects ≡ some z
Again y (err e, t) = Unit {0}

module _ (x y : SideEffectExecution) (s : Store) (key : x.idempotency_key ≡ y.idempotency_key)
    (scope : x.protected_scope ≡ y.protected_scope) where
  same_effect-here : same_effect x y ≡ true
  same_effect-here = ground (
    arith,
    eq_iff x.idempotency_key y.idempotency_key,
    eq_iff x.protected_scope y.protected_scope,
  )

  save_side_effect_execution-Again : Again y (save_side_effect_execution x s)
  unfolding save_side_effect_execution
  save_side_effect_execution-Again = elim (Option-cases (find_effect x s.side_effects)) [
    | inl fresh ↦ elim (Option-cases (get s.side_effects x.side_effect_execution_ref)) [
      | inl free ↦
          rw (fresh, free, save_side_effect_execution)
            (find_effect-put y x x.side_effect_execution_ref s.side_effects
              (sym (find_effect-same x y s.side_effects key scope) ∙ fresh) free same_effect-here)
      | inr (other, taken) ↦ rw (fresh, taken, save_side_effect_execution) tt
    ]
    | inr (z, e) ↦
        rw (e, save_side_effect_execution) (sym (find_effect-same x y s.side_effects key scope) ∙ e)
  ]

-- A side effect is recorded at most once for its idempotency key and protected scope: once an
-- execution is recorded or found, a request with the same key and scope is answered with that
-- execution, marked as deduplicated, and changes nothing.
pub save_side_effect_execution-once :
    (x y z : SideEffectExecution) (s t : Store) (deduped : Bool)
    → save_side_effect_execution x s ≡ (ok (z, deduped), t)
    → x.idempotency_key ≡ y.idempotency_key
    → x.protected_scope ≡ y.protected_scope
    → save_side_effect_execution y t ≡ (ok (z, true), t)
unfolding save_side_effect_execution
save_side_effect_execution-once x y z s t deduped saved key scope =
    let again : find_effect y t.side_effects ≡ some z =
      coe 0 1 (i. Again y (saved i)) (save_side_effect_execution-Again x y s key scope) in
    rw (again, save_side_effect_execution)
