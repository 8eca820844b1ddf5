-- ===== src/Memory/Invariant/Fresh.antt =====
-- The invariant together with what makes the next attempt reference new.
use touch_connect.Prelude.{ℕ, ◌+◌, ◌<◌, String, ◌≡◌, ◌≢◌, refl, arith, none}
use touch_connect.GoMap.{get}
use touch_connect.GoMap.Laws.{get-put_self, get-put_ne}
use touch_connect.Memory.Store.{Store}
use touch_connect.Memory.Refs.{ref_text, sequence, next_ref}
use touch_connect.Memory.Refs.Fresh.{ref_text_injective}
use touch_connect.Memory.Invariant.{Inv}

-- No attempt is stored under a number that has not been given out.
abbrev pub FreshAttempts : Store → Type 0
FreshAttempts s = (n : ℕ) → sequence s "attempt" < n → get s.attempts (ref_text "attempt" n) ≡ none

pub record Good (max : ℕ) (s : Store) : Type 0 where
  pub inv : Inv max s
  pub fresh : FreshAttempts s

-- The parts of the store that the invariant speaks of are as they were.
pub record SameLedger (s t : Store) : Type 0 where
  pub messages_same : t.messages ≡ s.messages
  pub attempts_same : t.attempts ≡ s.attempts
  pub sequence_same : sequence t "attempt" ≡ sequence s "attempt"

pub SameLedger-Inv : {max : ℕ} {s t : Store} → SameLedger s t → Inv max s → Inv max t
SameLedger-Inv {s = s} {t = t} e v = record {
  distinct = rw e.messages_same v.distinct;
  message_keyed = λ k m h. v.message_keyed k m (rw (← e.messages_same) h);
  attempt_keyed = λ k a h. v.attempt_keyed k a (rw (← e.attempts_same) h);
  bounded = λ k m h. v.bounded k m (rw (← e.messages_same) h);
  owned = λ k a h o. rw e.messages_same (v.owned k a (rw (← e.attempts_same) h) o);
}

pub SameLedger-Good : {max : ℕ} {s t : Store} → SameLedger s t → Good max s → Good max t
SameLedger-Good e g = record {
  inv = SameLedger-Inv e g.inv;
  fresh = λ n h. rw e.attempts_same (g.fresh n (rw (← e.sequence_same) h));
}

-- A new number of another kind.
pub sequence-next_ref_ne :
    (s : Store) (kind : String) → kind ≢ "attempt" → SameLedger s (next_ref kind s).1
unfolding next_ref sequence
sequence-next_ref_ne s kind other = record {
  messages_same = refl;
  attempts_same = refl;
  sequence_same = rw (get-put_ne s.sequences kind "attempt" (sequence s kind + 1) other, sequence);
}

-- The next attempt reference is new, and the invariant holds on with the number given out.
pub next_ref_fresh :
    {max : ℕ} (s : Store)
    → Good max s
    → get (next_ref "attempt" s).1.attempts (next_ref "attempt" s).0 ≡ none
unfolding next_ref
next_ref_fresh s g = g.fresh (sequence s "attempt" + 1) (omega arith)

pub sequence-next_ref :
    (s : Store) → sequence (next_ref "attempt" s).1 "attempt" ≡ sequence s "attempt" + 1
unfolding next_ref sequence
sequence-next_ref s = rw (get-put_self s.sequences "attempt" (sequence s "attempt" + 1), sequence)

pub next_ref-Good : {max : ℕ} (s : Store) → Good max s → Good max (next_ref "attempt" s).1
unfolding next_ref
next_ref-Good s g = record {
  inv = record {
    distinct = g.inv.distinct;
    message_keyed = g.inv.message_keyed;
    attempt_keyed = g.inv.attempt_keyed;
    bounded = g.inv.bounded;
    owned = g.inv.owned;
  };
  fresh = λ n h. g.fresh n (omega (arith, sequence-next_ref s));
}

-- From `s` to `t` an attempt is added under `ref` at most.
abbrev pub OnlyAdds : String → Store → Store → Type 0
OnlyAdds ref s t = (k : String) → k ≢ ref → get s.attempts k ≡ none → get t.attempts k ≡ none

-- After the number is used for an attempt, the later numbers are still new.
pub OnlyAdds-fresh :
    {max : ℕ} (s t : Store)
    → Good max s
    → OnlyAdds (next_ref "attempt" s).0 (next_ref "attempt" s).1 t
    → sequence t "attempt" ≡ sequence s "attempt" + 1
    → FreshAttempts t
unfolding next_ref
OnlyAdds-fresh s t g adds counted n h =
    adds (ref_text "attempt" n) (λ e. absurd (omega (arith, ref_text_injective "attempt" n _ e)))
      (g.fresh n (omega arith))
