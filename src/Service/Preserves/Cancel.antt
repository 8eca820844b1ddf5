-- ===== src/Service/Preserves/Cancel.antt =====
-- CancelTask and the invariant of the store.
use touch_connect.Prelude.{
  ℕ, ◌≤◌, String, true, ◌==◌, ◌||◌, ◌≡◌, refl, sym, ap, ◌∙◌, arith, some, List, [], ◌∷◌, All,
  All-map, inl, inr, Bool-cases, Option-cases,
}
use touch_connect.GoMap.{Map, get, put}
use touch_connect.GoMap.Laws.{get-put_cases, get-entries}
use touch_connect.Contracts.Governance.{TaskCommandRequest, TaskCommandResponse}
use touch_connect.Domain.States.{
  attempt_state_canceled, message_state_completed, message_state_canceled,
}
use touch_connect.Domain.Errors.{Result}
use touch_connect.Domain.Model.{Message}
use touch_connect.Exec.{pure}
use touch_connect.Memory.Store.{Store}
use touch_connect.Memory.Ledger.{get_attempt}
use touch_connect.Memory.Sort.{sort_by-All}
use touch_connect.Memory.Snapshots.{snapshot, values, sorted_map_values}
use touch_connect.Memory.Invariant.Fresh.{Good}
use touch_connect.Memory.Invariant.Held.{write_attempt-Good, write_message-Good_held}
use touch_connect.Service.AttemptState.{attempt_closed}
use touch_connect.Service.World.{Service, World, Settings}
use touch_connect.Service.Lookups.{service_snapshot}
use touch_connect.Service.Rules.{Ends, Ends-read, Ends-ensure, Ends-bind, Ends-pure}
use touch_connect.Service.Rules.Writes.{
  Ends-update_attempt, Ends-update_message, with_message_written,
}
use touch_connect.Service.Commands.{
  with_correlation, messages_for_task, cancel_open_attempt, cancel_message, cancel_messages,
  cancel_task,
}
use touch_connect.Service.Preserves.Basics.{GoodAfter}

with_correlation-All :
    (P : Message → Type 0) (task_ref : String) (l : List Message)
    → All P l
    → All P (with_correlation task_ref l)
unfolding with_correlation
with_correlation-All P task_ref [] ps = tt
with_correlation-All P task_ref (m ∷ l) ps = elim (Bool-cases (m.correlation_ref == task_ref)) [
  | inl e ↦ rw e (ps.0, with_correlation-All P task_ref l ps.1)
  | inr e ↦ rw e (with_correlation-All P task_ref l ps.1)
]

canceled_is_closed : attempt_closed attempt_state_canceled ≡ true
unfolding attempt_closed
canceled_is_closed = refl

module _ (max : ℕ) where
  -- The record of a message may be written back into the store in another state.
  abbrev Fits : Map Message → Message → Type 0
  Fits n m =
      (m.redelivery_count ≤ max)
      × ((x : Message) → get n m.message_ref ≡ some x → x.attempt_ref ≡ m.attempt_ref)

  values-Fits :
      (s : Store) (n : Map Message)
      → Good max s
      → All (λ (p : String × Message). get s.messages p.0 ≡ some p.1) n
      → All (Fits s.messages) (values n)
  unfolding values
  values-Fits s [] g all = tt
  values-Fits s ((k, m) ∷ n) g all = (
    (g.inv.bounded k m all.0, λ x e. cc (g.inv.message_keyed k m all.0, all.0)),
    values-Fits s n g all.1,
  )

  messages_for_task-Fits :
      (settings : Settings) (s : Store) (task_ref : String)
      → Good max s
      → All (Fits s.messages) (messages_for_task settings s task_ref)
  unfolding messages_for_task service_snapshot snapshot sorted_map_values
  messages_for_task-Fits settings s task_ref g = with_correlation-All (Fits s.messages) task_ref _ (
      sort_by-All (Fits s.messages) _ (values s.messages)
        (values-Fits s s.messages g (get-entries s.messages g.inv.distinct)))

  -- The step keeps the invariant and the messages.
  abbrev KeepsMessages : {A : Type 0} → World → Result A × World → Type 0
  KeepsMessages w r = Good max r.1.store × (r.1.store.messages ≡ w.store.messages)

  cancel_open_attempt-Ends :
      (ref : String) (w : World)
      → Good max w.store
      → Ends (KeepsMessages w) (cancel_open_attempt ref) w
  unfolding cancel_open_attempt get_attempt pure
  cancel_open_attempt-Ends ref w g = elim (Bool-cases (ref == "")) [
    | inl e ↦ record { holds = rw e (g, refl) }
    | inr e ↦ elim (Option-cases (get w.store.attempts ref)) [
      | inl missing ↦ record { holds = rw (e, missing) (g, refl) }
      | inr (a, ea) ↦ elim (Bool-cases (attempt_closed a.state)) [
        | inl shut ↦ record { holds = rw (e, ea, shut) (g, refl) }
        | inr alive ↦ record {
          holds =
              rw (e, ea, alive)
                (Ends-update_attempt {Q = KeepsMessages w} {w = w}
                  (record a { state = attempt_state_canceled }) (pure (some a.attempt_ref))
                  (g, refl)
                  (λ x ex. Ends-pure _ (
                    write_attempt-Good (record a { state = attempt_state_canceled }) a g
                        (ap (get w.store.attempts) (g.inv.attempt_keyed ref a ea) ∙ ea) refl
                        (λ o. absurd (ground (arith, canceled_is_closed))),
                    refl,
                  ))).holds;
        }
      ]
    ]
  ]

  -- The step keeps the invariant and what may be written back.
  abbrev Carries : {A : Type 0} → World → Result A × World → Type 0
  Carries w r =
      Good max r.1.store × ((m : Message) → Fits w.store.messages m → Fits r.1.store.messages m)

  written-Fits :
      (n : Map Message) (m x : Message)
      → Fits n m
      → get n m.message_ref ≡ some x
      → (m' : Message) → Fits n m'
      → Fits (put n m.message_ref (record m { state = message_state_canceled })) m'
  written-Fits n m x fits ex m' fits' = (
    fits'.0,
    λ y ey. elim (get-put_cases n m.message_ref m'.message_ref _ ey) [
      | inl (hit, p) ↦
          let same = fits.1 x ex in
          let here = fits'.1 x (ap (get n) (sym hit) ∙ ex) in
          sym (ap Message.attempt_ref p) ∙ (sym same ∙ here)
      | inr (miss, p) ↦ fits'.1 y p
    ],
  )

  Fits-transport : {n l : Map Message} (m : Message) → l ≡ n → Fits n m → Fits l m
  Fits-transport m e fits = (fits.0, λ y ey. fits.1 y (ap (λ h. get h m.message_ref) (sym e) ∙ ey))

  cancel_message-Carries :
      (m : Message) (response : TaskCommandResponse) (w : World)
      → Good max w.store
      → Fits w.store.messages m
      → Ends (Carries w) (cancel_message m response) w
  unfolding cancel_message
  cancel_message-Carries m response w g fits =
      elim (Bool-cases (m.state == message_state_completed || m.state == message_state_canceled)) [
        | inl over ↦ rw over (Ends-pure _ (g, λ m' f. f))
        | inr open_still ↦ rw open_still (
            Ends-update_message _ _ (g, λ m' f. f)
              λ x ex.
                let next : Message = record m { state = message_state_canceled } in
                let good : Good max (with_message_written next w).store =
                  write_message-Good_held m.message_ref next x g ex (sym (fits.1 x ex)) refl refl
                    fits.0 in
                let canceled =
                  (cancel_open_attempt-Ends m.attempt_ref (with_message_written next w)
                    good).holds in
                let carried : (m' : Message) → Fits w.store.messages m' → Fits _ m' = λ m' f.
                  Fits-transport m' canceled.1 (written-Fits w.store.messages m x fits ex m' f) in
                Ends-bind _ _ (λ _ _. (canceled.0, carried))
                  (λ _ _. Ends-pure _ (canceled.0, carried)))
      ]

  cancel_messages-Good :
      (l : List Message) (response : TaskCommandResponse) (w : World)
      → Good max w.store
      → All (Fits w.store.messages) l
      → Ends (GoodAfter max) (cancel_messages l response) w
  unfolding cancel_messages
  cancel_messages-Good [] response w g all = Ends-pure _ g
  cancel_messages-Good (m ∷ l) response w g all =
      let first = (cancel_message-Carries m response w g all.0).holds in
      Ends-bind _ _ (λ _ _. first.0)
        (λ next _. cancel_messages-Good l next _ first.0 (All-map l first.1 all.1))

  pub cancel_task-Good :
      (svc : Service) (req : TaskCommandRequest) (w : World)
      → Good max w.store
      → Ends (GoodAfter max) (cancel_task svc req) w
  unfolding cancel_task
  cancel_task-Good svc req w g = Ends-ensure _ _ _ g λ _. Ends-read _ _ (
      Ends-ensure _ _ _ g λ _.
        cancel_messages-Good _ _ w g (messages_for_task-Fits svc.settings w.store req.task_ref g))
