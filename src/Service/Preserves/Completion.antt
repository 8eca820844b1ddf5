-- ===== src/Service/Preserves/Completion.antt =====
-- CompleteAttempt and ReplayDeadLetter and the invariant of the store.
use touch_connect.Prelude.{ℕ, String, true, ◌≡◌, refl, ap, ◌∙◌, arith, List, [], ◌∷◌}
use touch_connect.GoMap.{get}
use touch_connect.Contracts.Messages.{FollowUpMessageRequest}
use touch_connect.Contracts.Attempts.{CompleteAttemptRequest}
use touch_connect.Contracts.Governance.{DlqReplayRequest}
use touch_connect.Domain.States.{attempt_state_completed, message_state_completed}
use touch_connect.Domain.Model.{Message, Attempt}
use touch_connect.Memory.Ledger.{get_attempt, get_message}
use touch_connect.Memory.Invariant.Fresh.{Good}
use touch_connect.Memory.Invariant.Held.{write_attempt-Good, write_message-Good_held}
use touch_connect.Service.AttemptState.{attempt_closed}
use touch_connect.Service.World.{Service, World}
use touch_connect.Service.Rules.{
  Ends, Ends-lookup, Ends-read, Ends-ensure, Ends-lift, Ends-bind, Ends-then, Ends-pure,
}
use touch_connect.Service.Rules.Writes.{
  Ends-update_attempt, Ends-update_message, with_attempt_written,
}
use touch_connect.Service.Attempts.{
  complete_attempt, finish_attempt, create_follow_up_messages, follow_up_request, or_zero,
  completion_checkpoint,
}
use touch_connect.Service.Commands.{replay_dead_letter, replay_request}
use touch_connect.Service.Preserves.Basics.{GoodAfter}
use touch_connect.Service.Preserves.Checkpoints.{Found, submit_checkpoint-Held}
use touch_connect.Service.Preserves.Ingress.{ingress_message-Good}

completed_is_closed : attempt_closed attempt_state_completed ≡ true
unfolding attempt_closed
completed_is_closed = refl

module _ {max : ℕ} (svc : Service) where
  create_follow_up_messages-Good :
      (req : CompleteAttemptRequest) (parent : Message) (follow_ups : List FollowUpMessageRequest)
      (w : World)
      → Good max w.store
      → Ends (GoodAfter max) (create_follow_up_messages svc req parent follow_ups) w
  unfolding create_follow_up_messages
  create_follow_up_messages-Good req parent [] w g = Ends-pure _ g
  create_follow_up_messages-Good req parent (follow_up ∷ rest) w g =
      let first = ingress_message-Good svc (follow_up_request req parent follow_up) w g in
      Ends-bind _ _ (λ _ _. first.holds)
        λ response _.
          let later = create_follow_up_messages-Good req parent rest _ first.holds in
          Ends-bind _ _ (λ _ _. later.holds) (λ refs _. Ends-pure _ later.holds)

  finish_attempt-Good :
      (ref : String) (req : CompleteAttemptRequest) (w : World)
      → Good max w.store
      → Found w.store ref
      → Ends (GoodAfter max) (finish_attempt svc ref req) w
  unfolding finish_attempt get_attempt get_message
  finish_attempt-Good ref req w g (a, ea, (m, em)) =
      let keyed = g.inv.message_keyed a.message_ref m em in
      let closed : Attempt = record a { state = attempt_state_completed } in
      Ends-read _ _ (
        rw (ea, or_zero)
          (Ends-read _ _ (
            rw (em, or_zero)
              (Ends-update_attempt _ _ g λ _ _.
                let good : Good max (with_attempt_written closed w).store =
                  write_attempt-Good closed a g
                    (ap (get w.store.attempts) (g.inv.attempt_keyed ref a ea) ∙ ea) refl
                    (λ o. absurd (ground (arith, completed_is_closed))) in
                Ends-update_message _ _ good λ _ _.
                  let last =
                    write_message-Good_held m.message_ref
                      (record m { state = message_state_completed }) m good
                      (ap (get w.store.messages) keyed ∙ em) refl refl refl
                      (g.inv.bounded a.message_ref m em) in
                  let later =
                    create_follow_up_messages-Good req
                      (record m { state = message_state_completed }) req.follow_up_messages _
                      last in
                  Ends-bind _ _ (λ _ _. later.holds) (λ refs _. Ends-pure _ later.holds)))))

  pub complete_attempt-Good :
      (ref : String) (req : CompleteAttemptRequest) (w : World)
      → Good max w.store
      → Ends (GoodAfter max) (complete_attempt svc ref req) w
  unfolding complete_attempt get_attempt
  complete_attempt-Good ref req w g =
      Ends-lift _ _ (λ _. g)
        λ _ _. Ends-lookup _ _ _ g λ attempt e. Ends-ensure _ _ _ g λ _. Ends-ensure _ _ _ g λ _.
          Ends-then (GoodAfter max) _ _
            (submit_checkpoint-Held svc ref (completion_checkpoint req) w g) (λ _ v failed. failed)
            (λ _ v held. finish_attempt-Good ref req v held.0 held.1)

  pub replay_dead_letter-Good :
      (req : DlqReplayRequest) (w : World)
      → Good max w.store
      → Ends (GoodAfter max) (replay_dead_letter svc req) w
  unfolding replay_dead_letter get_message
  replay_dead_letter-Good req w g = Ends-ensure _ _ _ g λ _. Ends-lookup _ _ _ g λ letter _.
      Ends-lookup _ _ _ g λ original _.
        let replayed = ingress_message-Good svc (replay_request original) w g in
        Ends-bind _ _ (λ _ _. replayed.holds) (λ _ _. Ends-pure _ replayed.holds)
