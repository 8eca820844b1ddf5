-- ===== src/Memory/Reconcile/Preserves.antt =====
-- ReconcileExpiredClaims and the invariant of the store.
use touch_connect.Prelude.{
  ℕ, String, ◌≡◌, refl, ap, ◌∙◌, inl, inr, arith, some, List, [], ◌∷◌, Option-cases,
}
use touch_connect.GoMap.{get, keys}
use touch_connect.GoMap.Laws.{get-put_ne}
use touch_connect.Domain.States.{message_state_takeover_candidate}
use touch_connect.Domain.Model.{Message, Attempt}
use touch_connect.Memory.Store.{Store}
use touch_connect.Memory.Refs.{sequence, ref_text}
use touch_connect.Memory.Claim.{orphan_attempt}
use touch_connect.Memory.Reconcile.{
  expired_attempt, make_candidate, reconcile_message, reconcile_all, reconcile_expired_claims,
}
use touch_connect.Memory.Invariant.{Inv}
use touch_connect.Memory.Invariant.Fresh.{Good}
use touch_connect.Memory.Invariant.Steps.{
  orphan_attempt-Inv, orphan_attempt-NoOpen, write_message-Inv_idle,
}

-- What an expired attempt is: the stored attempt of the message.
pub expired_attempt-stored :
    (now : ℕ) (m : Message) (s : Store) {a : Attempt}
    → expired_attempt now m s.attempts ≡ some a
    → get s.attempts m.attempt_ref ≡ some a
unfolding expired_attempt
expired_attempt-stored now m s {a} h = ground arith

make_candidate-Inv :
    {max : ℕ} {s : Store} (v : Inv max s) (k : String) (m : Message) (a : Attempt)
    → get s.messages k ≡ some m
    → get s.attempts m.attempt_ref ≡ some a
    → Inv max (make_candidate m a s)
unfolding make_candidate orphan_attempt
make_candidate-Inv {s = s} v k m a em ea =
    let em' : get s.messages m.message_ref ≡ some m =
      ap (get s.messages) (v.message_keyed k m em) ∙ em in
    let w =
      write_message-Inv_idle m.message_ref (record m { state = message_state_takeover_candidate })
        (orphan_attempt-Inv a v) (orphan_attempt-NoOpen v m.message_ref m a em' ea) refl
        (v.bounded k m em) in
    record {
      message_keyed = w.message_keyed;
      attempt_keyed = w.attempt_keyed;
      distinct = w.distinct;
      bounded = w.bounded;
      owned = w.owned;
    }

make_candidate-Good :
    {max : ℕ} {s : Store} (g : Good max s) (k : String) (m : Message) (a : Attempt)
    → get s.messages k ≡ some m
    → get s.attempts m.attempt_ref ≡ some a
    → Good max (make_candidate m a s)
unfolding make_candidate orphan_attempt sequence
make_candidate-Good {s = s} g k m a em ea = record {
  inv = make_candidate-Inv g.inv k m a em ea;
  fresh = λ n h.
      get-put_ne s.attempts a.attempt_ref (ref_text "attempt" n) _
        (λ p. cc (p, g.inv.attempt_keyed m.attempt_ref a ea, ea, g.fresh n h))
      ∙ g.fresh n h;
}

reconcile_message-Good :
    {max : ℕ} {s : Store} (g : Good max s) (now count : ℕ) (k : String) (m : Message)
    → get s.messages k ≡ some m
    → Good max (reconcile_message now m (s, count)).0
unfolding reconcile_message
reconcile_message-Good {s = s} g now count k m em =
    elim (Option-cases (expired_attempt now m s.attempts)) [
      | inl e ↦ rw (e, reconcile_message) g
      | inr (a, e) ↦
          rw (e, reconcile_message)
            (make_candidate-Good g k m a em (expired_attempt-stored now m s e))
    ]

reconcile_all-Good :
    {max : ℕ} (now : ℕ) (refs : List String) (s : Store) (count : ℕ)
    → Good max s
    → Good max (reconcile_all now refs (s, count)).0
unfolding reconcile_all
reconcile_all-Good now [] s count g = g
reconcile_all-Good now (ref ∷ refs) s count g = elim (Option-cases (get s.messages ref)) [
  | inl e ↦ rw (e, reconcile_all) (reconcile_all-Good now refs s count g)
  | inr (m, e) ↦
      rw (e, reconcile_all)
        (reconcile_all-Good now refs (reconcile_message now m (s, count)).0
          (reconcile_message now m (s, count)).1 (reconcile_message-Good g now count ref m e))
]

-- ReconcileExpiredClaims, at any clock reading, keeps the invariant of a store for which it holds: it
-- makes a message a takeover candidate only together with closing its attempt.
pub reconcile_expired_claims-Good :
    {max : ℕ} (now : ℕ) (s : Store) → Good max s → Good max (reconcile_expired_claims now s).0
unfolding reconcile_expired_claims
reconcile_expired_claims-Good now s g = reconcile_all-Good now (keys s.messages) s 0 g
