-- ===== src/Memory/Invariant/Steps.antt =====
-- The invariant through the writes that the store's operations are made of.
use touch_connect.Prelude.{
  ℕ, ◌≤◌, String, true, false, ◌==◌, ◌≡◌, refl, sym, ap, ◌∙◌, inl, inr, arith, eq_iff, Bool-cases,
  none, some,
}
use touch_connect.GoMap.{get, put}
use touch_connect.GoMap.Laws.{get-put, get-put_self, get-put_ne, get-put_cases, put-Distinct}
use touch_connect.Domain.States.{message_state_claimed, attempt_state_orphaned}
use touch_connect.Domain.Model.{Message, Attempt, ClaimRequest}
use touch_connect.Service.AttemptState.{attempt_closed}
use touch_connect.Memory.Store.{Store}
use touch_connect.Memory.Claim.{claim_available_message, orphan_attempt}
use touch_connect.Memory.Invariant.{Inv, NoOpen, is_waiting}

-- A message that waits has no open attempt.
pub waiting-NoOpen :
    {max : ℕ} {s : Store} (v : Inv max s) (k : String) (m : Message)
    → get s.messages k ≡ some m
    → is_waiting m.state ≡ true
    → NoOpen s k
waiting-NoOpen v k m e w j a ea em = ground (arith, v.owned j a)

orphaned_closed : attempt_closed attempt_state_orphaned ≡ true
unfolding attempt_closed
orphaned_closed = refl

-- Closing an attempt keeps the invariant.
pub orphan_attempt-Inv :
    {max : ℕ} {s : Store} (a : Attempt) → Inv max s → Inv max (orphan_attempt a s)
unfolding orphan_attempt
orphan_attempt-Inv {s = s} a v = record {
  distinct = v.distinct;
  message_keyed = v.message_keyed;
  attempt_keyed = λ k x e. elim (get-put_cases s.attempts a.attempt_ref k _ e) [
    | inl (hit, p) ↦ cc
    | inr (miss, p) ↦ v.attempt_keyed k x p
  ];
  bounded = v.bounded;
  owned = λ k x e o. elim (get-put_cases s.attempts a.attempt_ref k _ e) [
    | inl (hit, p) ↦ cc orphaned_closed
    | inr (miss, p) ↦ v.owned k x p o
  ];
}

-- After the current attempt of a message is orphaned, none at it is open.
pub orphan_attempt-NoOpen :
    {max : ℕ} {s : Store} (v : Inv max s) (k : String) (m : Message) (a : Attempt)
    → get s.messages k ≡ some m
    → get s.attempts m.attempt_ref ≡ some a
    → NoOpen (orphan_attempt a s) k
unfolding orphan_attempt
orphan_attempt-NoOpen {s = s} v k m a em ea j x ex ek =
    elim (get-put_cases s.attempts a.attempt_ref j _ ex) [
      | inl (hit, p) ↦ cc orphaned_closed
      | inr (miss, p) ↦ elim (Bool-cases (attempt_closed x.state)) [
        | inl c ↦ c
        | inr o ↦
            let (m', em', own, idle) = v.owned j x p o in
            absurd (miss (cc (v.attempt_keyed m.attempt_ref a ea)))
      ]
    ]

abbrev pub write_message : String → Message → Store → Store
write_message k m s = record s { messages = put s.messages k m }

-- A message without an open attempt may be written freely.
pub write_message-Inv_idle :
    {max : ℕ} {s : Store} (k : String) (m : Message)
    → Inv max s
    → NoOpen s k
    → m.message_ref ≡ k
    → m.redelivery_count ≤ max
    → Inv max (write_message k m s)
write_message-Inv_idle {s = s} k m v free named below = record {
  distinct = put-Distinct s.messages k m v.distinct;
  message_keyed = λ j x e. elim (get-put_cases s.messages k j _ e) [
    | inl (hit, p) ↦ cc
    | inr (miss, p) ↦ v.message_keyed j x p
  ];
  attempt_keyed = v.attempt_keyed;
  bounded = λ j x e. elim (get-put_cases s.messages k j _ e) [
    | inl (hit, p) ↦ ground arith
    | inr (miss, p) ↦ v.bounded j x p
  ];
  owned = λ j a e o.
      let (x, ex, own, idle) = v.owned j a e o in
      (x, get-put_ne s.messages k a.message_ref m (λ p. cc (free j a e (sym p))) ∙ ex, own, idle);
}

-- A message that stays with its attempt and does not go back to waiting may be written too.
pub write_message-Inv_held :
    {max : ℕ} {s : Store} (k : String) (m x : Message)
    → Inv max s
    → get s.messages k ≡ some x
    → m.attempt_ref ≡ x.attempt_ref
    → is_waiting m.state ≡ false
    → m.message_ref ≡ k
    → m.redelivery_count ≤ max
    → Inv max (write_message k m s)
write_message-Inv_held {s = s} k m x v ex same busy named below = record {
  distinct = put-Distinct s.messages k m v.distinct;
  message_keyed = λ j y e. elim (get-put_cases s.messages k j _ e) [
    | inl (hit, p) ↦ cc
    | inr (miss, p) ↦ v.message_keyed j y p
  ];
  attempt_keyed = v.attempt_keyed;
  bounded = λ j y e. elim (get-put_cases s.messages k j _ e) [
    | inl (hit, p) ↦ ground arith
    | inr (miss, p) ↦ v.bounded j y p
  ];
  owned = λ j a e o.
      let (y, ey, own, idle) = v.owned j a e o in
      elim (Bool-cases (k == a.message_ref)) [
        | inl hit ↦ (
          m,
          ground (arith, get-put s.messages k a.message_ref m),
          cc (same, own, ex, ey, (eq_iff k a.message_ref).0 hit),
          busy,
        )
        | inr miss ↦ (y, ground (arith, get-put s.messages k a.message_ref m), own, idle)
      ];
}

-- A claim of a message without an open attempt, under a new reference.
pub claim_available_message-Inv :
    {max : ℕ} {s : Store} (m : Message) (claim : ClaimRequest)
    → Inv max s
    → NoOpen s m.message_ref
    → get s.attempts claim.attempt_ref ≡ none
    → m.redelivery_count ≤ max
    → Inv max (claim_available_message m claim s).1
unfolding claim_available_message
claim_available_message-Inv {s = s} m claim v free fresh below = record {
  distinct = put-Distinct s.messages m.message_ref _ v.distinct;
  message_keyed = λ j y e. elim (get-put_cases s.messages m.message_ref j _ e) [
    | inl (hit, p) ↦ cc
    | inr (miss, p) ↦ v.message_keyed j y p
  ];
  attempt_keyed = λ j y e. elim (get-put_cases s.attempts claim.attempt_ref j _ e) [
    | inl (hit, p) ↦ cc
    | inr (miss, p) ↦ v.attempt_keyed j y p
  ];
  bounded = λ j y e. elim (get-put_cases s.messages m.message_ref j _ e) [
    | inl (hit, p) ↦ ground arith
    | inr (miss, p) ↦ v.bounded j y p
  ];
  owned = λ j a e o. elim (get-put_cases s.attempts claim.attempt_ref j _ e) [
    | inl (hit, p) ↦ (
      record m { state = message_state_claimed; attempt_ref = claim.attempt_ref },
      rw (sym (ap (λ (y : Attempt). y.message_ref) p)) (get-put_self s.messages m.message_ref _),
      hit,
      refl,
    )
    | inr (miss, p) ↦
        let (y, ey, own, idle) = v.owned j a p o in
        (
          y,
          get-put_ne s.messages m.message_ref a.message_ref _ (λ q. cc (free j a p (sym q))) ∙ ey,
          own,
          idle,
        )
  ];
}
