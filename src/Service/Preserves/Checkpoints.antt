-- ===== src/Service/Preserves/Checkpoints.antt =====
-- SubmitCheckpoint: what it leaves of the attempt and its message, and the invariant.
use touch_connect.Prelude.{
  ℕ, String, Bool, true, false, not, ◌==◌, ◌||◌, if◌then◌else◌, ◌≡◌, refl, sym, ap, ◌∙◌, inl, inr,
  arith, some, eq_iff, Bool-cases, Option-cases,
}
use touch_connect.GoMap.{get, put}
use touch_connect.GoMap.Laws.{get-put_self}
use touch_connect.Contracts.Attempts.{CheckpointRequest}
use touch_connect.Domain.States.{
  message_state_processing, message_state_input_required, message_state_failed,
  message_state_completed, attempt_state_in_progress, attempt_state_validating,
  attempt_state_blocked_missing_fields, attempt_state_failed, attempt_state_completed,
  attempt_state_orphaned,
}
use touch_connect.Domain.Model.{Message, Attempt, Checkpoint}
use mathlib.Core.Path.{subst}
use touch_connect.Domain.Errors.{Result, ok, err}
use touch_connect.Exec.{Exec, ◌>>◌}
use touch_connect.Memory.Store.{Store}
use touch_connect.Memory.Refs.{sequence}
use touch_connect.Memory.Ledger.{save_checkpoint, get_message, update_attempt}
use touch_connect.Memory.Invariant.{is_waiting}
use touch_connect.Memory.Invariant.Held.{write_attempt-Good, write_message-Good_held}
use touch_connect.Memory.Invariant.Fresh.{Good, SameLedger}
use touch_connect.Service.AttemptState.{attempt_closed}
use touch_connect.Service.World.{Service, World, on_store}
use touch_connect.Service.Rules.{
  Ends, Ends-lookup, Ends-read, Ends-ensure, Ends-lift, Ends-weaken, Outcome, Ends-then, Ends-pure,
}
use touch_connect.Service.Rules.Writes.{
  Ends-update_attempt, Ends-update_message_last, with_attempt_written,
}
use touch_connect.Service.Guards.{Live, require_live_attempt-Ends}
use touch_connect.Service.Attempts.{
  submit_checkpoint, write_checkpoint, message_state_after, update_message_state_for_checkpoint,
  ack_delivery_for_terminal_checkpoint,
}
use touch_connect.Service.Preserves.Basics.{
  GoodAfter, Keeps, SameLedger-refl, SameLedger-trans, Ends-Keeps_to, on_store-Keeps,
  allocate-Keeps, ack_with-Keeps,
}

busy_branches :
    (a b c d : Bool) (before : String)
    → is_waiting before ≡ false
    → is_waiting (
        if a
        then message_state_processing
        else if b
        then message_state_input_required
        else if c
        then message_state_failed
        else if d
        then message_state_completed
        else before)
      ≡ false
busy_branches true b c d before busy = refl
busy_branches false true c d before busy = refl
busy_branches false false true d before busy = refl
busy_branches false false false true before busy = refl
busy_branches false false false false before busy = busy

-- A checkpoint does not put a message back among those that wait.
pub message_state_after-busy :
    (attempt_state before : String)
    → is_waiting before ≡ false
    → is_waiting (message_state_after attempt_state before) ≡ false
unfolding message_state_after
message_state_after-busy attempt_state before busy =
    busy_branches
      (attempt_state == attempt_state_in_progress || attempt_state == attempt_state_validating)
      (attempt_state == attempt_state_blocked_missing_fields)
      (attempt_state == attempt_state_failed) (attempt_state == attempt_state_completed) before busy

-- The adapter does not touch the store.
ack_delivery-Ends :
    (svc : Service) (message_ref attempt_state : String) (w : World)
    → Ends (Keeps w) (ack_delivery_for_terminal_checkpoint svc message_ref attempt_state) w
unfolding ack_delivery_for_terminal_checkpoint
ack_delivery-Ends svc message_ref attempt_state w = elim (Option-cases svc.delivery) [
  | inl e ↦ rw e (Ends-pure tt (SameLedger-refl w.store))
  | inr (adapter, e) ↦
      rw e
        (elim (Bool-cases
          (not (attempt_closed attempt_state) || attempt_state == attempt_state_orphaned)) [
            | inl unsettled ↦ rw unsettled (Ends-pure tt (SameLedger-refl w.store))
            | inr over ↦ rw over (
                Ends-lookup _ _ _ (SameLedger-refl w.store)
                  λ (message : Message) _. ack_with-Keeps adapter message.delivery_ref w)
          ])
]

save_checkpoint-Keeps :
    (c : Checkpoint) (w : World) → Ends (Keeps w) (on_store (save_checkpoint c)) w
unfolding save_checkpoint sequence
save_checkpoint-Keeps c w =
    on_store-Keeps _ w (record { messages_same = refl; attempts_same = refl; sequence_same = refl })

-- An attempt is stored under the reference, and so is its message.
abbrev pub Found : Store → String → Type 0
Found s ref =
    (a : Attempt) × (get s.attempts ref ≡ some a)
    × ((m : Message) × (get s.messages a.message_ref ≡ some m))

Found-SameLedger : {s t : Store} (ref : String) → SameLedger s t → Found s ref → Found t ref
Found-SameLedger ref same (a, ea, (m, em)) =
    (a, cc (same.attempts_same), (m, cc (same.messages_same)))

-- A result leaves a good store with the attempt and its message, and a failure a good store.
abbrev pub GoodHeld : {A : Type 0} → ℕ → String → Result A × World → Type 0
GoodHeld max ref = Outcome (λ _ v. Good max v.store × Found v.store ref) (λ v. Good max v.store)

pub GoodHeld-GoodAfter :
    {A : Type 0} {max : ℕ} (ref : String) (r : Result A × World)
    → GoodHeld max ref r
    → GoodAfter max r
GoodHeld-GoodAfter ref (ok a, v) h = h.0
GoodHeld-GoodAfter ref (err e, v) h = h

module _ {max : ℕ} where
  update_message_state-Held :
      (ref k attempt_state : String) (a : Attempt) (w : World)
      → Good max w.store
      → get w.store.attempts ref ≡ some a
      → a.message_ref ≡ k
      → ((m : Message) → get w.store.messages k ≡ some m → is_waiting m.state ≡ false)
      → Ends (GoodHeld max ref) (update_message_state_for_checkpoint k attempt_state) w
  unfolding update_message_state_for_checkpoint get_message
  update_message_state-Held ref k attempt_state a w g ea mine busy = Ends-lookup _ _ _ g λ m e.
      let keyed = g.inv.message_keyed k m e in
      let next : Message = record m { state = message_state_after attempt_state m.state } in
      Ends-update_message_last _ g λ _ _. (
        write_message-Good_held m.message_ref
            (record m { state = message_state_after attempt_state m.state }) m g
            (ap (get w.store.messages) keyed ∙ e) refl
            (message_state_after-busy attempt_state m.state (busy m e)) refl (g.inv.bounded k m e),
        (
          a,
          ea,
          (
            next,
            ap (get (put w.store.messages m.message_ref next)) (mine ∙ sym keyed)
                ∙ get-put_self w.store.messages m.message_ref next,
          ),
        ),
      )

  -- The message of an open attempt does not wait.
  holder_busy :
      (w : World) (a : Attempt) (k : String)
      → Good max w.store
      → get w.store.attempts k ≡ some a
      → attempt_closed a.state ≡ false
      → (m : Message) → get w.store.messages a.message_ref ≡ some m
      → is_waiting m.state ≡ false
  holder_busy w a k g e alive m em = let (x, ex, own, busy) = g.inv.owned k a e alive in cc

  -- The attempt as its holder finds it in the store, under its own reference.
  stored_here :
      {s t : Store} {a : Attempt} (ref : String)
      → Good max s
      → SameLedger s t
      → get s.attempts ref ≡ some a
      → get t.attempts a.attempt_ref ≡ some a
  stored_here {a = a} ref g same e = cc (g.inv.attempt_keyed ref a e, same.attempts_same)

  -- The attempt takes a state, and its message the one that follows.
  record_state-Held :
      {B : Type 0} (a : Attempt) (state : String) (revision : ℕ) (k : Exec World B) (w : World)
      → Good max w.store
      → get w.store.attempts a.attempt_ref ≡ some a
      → attempt_closed a.state ≡ false
      → ((v : World)
          → Good max v.store
          → Found v.store a.attempt_ref
          → Ends (GoodHeld max a.attempt_ref) k v)
      → Ends
          (GoodHeld max a.attempt_ref)
          (on_store (update_attempt (record a { state = state; revision = revision }))
            >> (update_message_state_for_checkpoint a.message_ref state >> k))
          w
  record_state-Held a state revision k w g e alive rest = Ends-update_attempt _ _ g λ x ex.
      let next : Attempt = record a { state = state; revision = revision } in
      let good : Good max (with_attempt_written next w).store =
        write_attempt-Good next a g e refl (λ _. alive) in
      Ends-then (GoodHeld max a.attempt_ref) _ _
        (update_message_state-Held a.attempt_ref a.message_ref state next
          (with_attempt_written next w) good (get-put_self w.store.attempts a.attempt_ref next) refl
          (holder_busy w a a.attempt_ref g e alive))
        (λ _ v failed. failed) (λ _ v held. rest v held.0 held.1)

  write_checkpoint-Held :
      (svc : Service) (ref endpoint_ref : String) (attempt : Attempt) (req : CheckpointRequest)
      (w : World)
      → Good max w.store
      → Live svc w.store ref endpoint_ref attempt
      → Ends (GoodHeld max attempt.attempt_ref) (write_checkpoint svc attempt req) w
  unfolding write_checkpoint
  write_checkpoint-Held svc ref endpoint_ref attempt req w g live =
      Ends-Keeps_to (GoodHeld max attempt.attempt_ref) _ _ (λ _ _ good. good) g
        (allocate-Keeps "checkpoint" w (ground (arith, eq_iff "checkpoint" "attempt")))
        λ checkpoint_ref v same good.
          Ends-Keeps_to (GoodHeld max attempt.attempt_ref) _ _ (λ _ _ good. good) good
            (save_checkpoint-Keeps _ v)
            λ accepted u later good'.
              record_state-Held attempt req.state accepted.revision _ u good'
                (stored_here ref g (SameLedger-trans same later) live.stored) live.still_open
                λ z ok_then there.
                  Ends-Keeps_to (GoodHeld max attempt.attempt_ref) _ _ (λ _ _ good. good) ok_then
                    (ack_delivery-Ends svc attempt.message_ref req.state z)
                    λ _ _ kept last.
                      Ends-pure _ (last, Found-SameLedger attempt.attempt_ref kept there)

  pub submit_checkpoint-Held :
      (svc : Service) (ref : String) (req : CheckpointRequest) (w : World)
      → Good max w.store
      → Ends (GoodHeld max ref) (submit_checkpoint svc ref req) w
  unfolding submit_checkpoint
  submit_checkpoint-Held svc ref req w g =
      Ends-lift _ _ (λ _. g)
        λ _ _.
          Ends-then (GoodHeld max ref) _ _ (require_live_attempt-Ends svc w ref req.endpoint_ref)
            (λ e v same. rw same g)
            λ attempt v (live, same). rw same (
              Ends-read _ _ (
                Ends-ensure _ _ _ g λ _.
                  subst (λ r. Ends (GoodHeld max r) (write_checkpoint svc attempt req) w)
                    (g.inv.attempt_keyed ref attempt live.stored)
                    (write_checkpoint-Held svc ref req.endpoint_ref attempt req w g live)))

  pub submit_checkpoint-Good :
      (svc : Service) (ref : String) (req : CheckpointRequest) (w : World)
      → Good max w.store
      → Ends (GoodAfter max) (submit_checkpoint svc ref req) w
  submit_checkpoint-Good svc ref req w g =
      Ends-weaken (GoodHeld-GoodAfter ref) (submit_checkpoint-Held svc ref req w g)
