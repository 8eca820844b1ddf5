-- ===== src/Memory/Invariant/Held.antt =====
-- The invariant through the writes of an attempt's holder.
use touch_connect.Prelude.{ℕ, ◌≤◌, String, false, ◌≡◌, ◌∙◌, inl, inr, some}
use touch_connect.GoMap.{get, put}
use touch_connect.GoMap.Laws.{get-put_ne, get-put_cases}
use touch_connect.Domain.Model.{Message, Attempt}
use touch_connect.Service.AttemptState.{attempt_closed}
use touch_connect.Memory.Store.{Store}
use touch_connect.Memory.Refs.{ref_text, sequence}
use touch_connect.Memory.Invariant.{Inv, is_waiting}
use touch_connect.Memory.Invariant.Steps.{write_message, write_message-Inv_held}
use touch_connect.Memory.Invariant.Fresh.{Good}

abbrev pub write_attempt : Attempt → Store → Store
write_attempt a s = record s { attempts = put s.attempts a.attempt_ref a }

-- A stored attempt is written again for the same message, and does not open again.
write_attempt-Inv :
    {max : ℕ} {s : Store} (a x : Attempt)
    → Inv max s
    → get s.attempts a.attempt_ref ≡ some x
    → a.message_ref ≡ x.message_ref
    → (attempt_closed a.state ≡ false → attempt_closed x.state ≡ false)
    → Inv max (write_attempt a s)
write_attempt-Inv {s = s} a x v e same shut = record {
  distinct = v.distinct;
  message_keyed = v.message_keyed;
  attempt_keyed = λ j y h. elim (get-put_cases s.attempts a.attempt_ref j _ h) [
    | inl (hit, p) ↦ cc
    | inr (miss, p) ↦ v.attempt_keyed j y p
  ];
  bounded = v.bounded;
  owned = λ j y h o. elim (get-put_cases s.attempts a.attempt_ref j _ h) [
    | inl (hit, p) ↦
        let (m, em, own, idle) = v.owned a.attempt_ref x e (shut (cc)) in (m, cc, cc, idle)
    | inr (miss, p) ↦ v.owned j y p o
  ];
}

pub write_attempt-Good :
    {max : ℕ} {s : Store} (a x : Attempt)
    → Good max s
    → get s.attempts a.attempt_ref ≡ some x
    → a.message_ref ≡ x.message_ref
    → (attempt_closed a.state ≡ false → attempt_closed x.state ≡ false)
    → Good max (write_attempt a s)
unfolding sequence
write_attempt-Good {s = s} a x g e same shut = record {
  inv = write_attempt-Inv a x g.inv e same shut;
  fresh = λ n h.
      get-put_ne s.attempts a.attempt_ref (ref_text "attempt" n) a (λ p. cc (g.fresh n h))
      ∙ g.fresh n h;
}

pub write_message-Good_held :
    {max : ℕ} {s : Store} (k : String) (m x : Message)
    → Good max s
    → get s.messages k ≡ some x
    → m.attempt_ref ≡ x.attempt_ref
    → is_waiting m.state ≡ false
    → m.message_ref ≡ k
    → m.redelivery_count ≤ max
    → Good max (write_message k m s)
unfolding sequence
write_message-Good_held k m x g e same busy named below = record {
  inv = write_message-Inv_held k m x g.inv e same busy named below;
  fresh = g.fresh;
}
