-- ===== src/Memory/ClaimNext/Eligible.antt =====
-- Which message an endpoint may take next, told apart from the tests of the code.
use touch_connect.Prelude.{
  String, true, ◌==◌, ◌≡◌, ◌↔◌, ◌⊎◌, refl, inl, inr, arith, eq_iff, Bool-cases, Option-cases, none,
  some, List, [], ◌∷◌, All,
}
use touch_connect.GoMap.{Map, get}
use touch_connect.GoText.{trim_space}
use touch_connect.Domain.States.{message_state_completed}
use touch_connect.Domain.Model.{Message, ClaimNextRequest}
use touch_connect.Domain.Routing.{
  message_routable_to_endpoint, message_claimable_by_endpoint, is_completed, dependencies_completed,
  message_dependencies_completed,
}
use touch_connect.Domain.Routing.Meaning.{
  CanHandle, OnlineFor, CanHandle-iff, addressed_iff, preferred_iff,
}
use touch_connect.Memory.Store.{Store}
use touch_connect.Memory.ClaimNext.{states_of, is_eligible}

abbrev pub Completed : Map Message → String → Type 0
Completed messages ref =
    (d : Message) × (get messages ref ≡ some d) × (d.state ≡ message_state_completed)

pub record Eligible (claim : ClaimNextRequest) (s : Store) (m : Message) : Type 0 where
  pub addressed :
      (m.target_endpoint_ref ≡ "") ⊎ (m.target_endpoint_ref ≡ claim.endpoint.endpoint_ref)
  pub able : CanHandle claim.endpoint m.target_capability
  pub preferred :
      (trim_space m.preferred_endpoint_ref ≡ "")
      ⊎ ((trim_space m.preferred_endpoint_ref ≡ claim.endpoint.endpoint_ref)
          ⊎ (¬ OnlineFor claim.preferred_endpoints (trim_space m.preferred_endpoint_ref) m))
  pub dependencies :
      All (λ r. (trim_space r ≡ "") ⊎ Completed s.messages (trim_space r)) m.depends_on_message_refs

states_of-none :
    (messages : Map Message) (ref : String)
    → get messages ref ≡ none
    → get (states_of messages) ref ≡ none
unfolding states_of get
states_of-none [] ref h = refl
states_of-none ((k, m) ∷ rest) ref h = ground (arith, states_of-none rest ref)

states_of-some :
    (messages : Map Message) (ref : String) (m : Message)
    → get messages ref ≡ some m
    → get (states_of messages) ref ≡ some m.state
unfolding states_of get
states_of-some [] ref m h = cc
states_of-some ((k, x) ∷ rest) ref m h = elim (Bool-cases (k == ref)) [
  | inl e ↦ let same : x ≡ m = ground (arith, rw e at h) in rw (e, same) refl
  | inr e ↦ rw e (states_of-some rest ref m (rw e at h))
]

Completed-iff :
    (messages : Map Message) (ref : String)
    → (is_completed (get (states_of messages) ref) ≡ true) ↔ Completed messages ref
unfolding is_completed
Completed-iff messages ref = elim (Option-cases (get messages ref)) [
  | inl absent ↦ (
    λ h. absurd (cc (rw (states_of-none messages ref absent, is_completed) at h)),
    λ (d, ed, done). absurd cc,
  )
  | inr (x, ex) ↦
      let read = states_of-some messages ref x ex in
      (
        λ h. (x, ex, (eq_iff x.state message_state_completed).0 (rw (read, is_completed) at h)),
        λ (d, ed, done).
            rw (states_of-some messages ref d ed, is_completed)
              ((eq_iff d.state message_state_completed).1 done),
      )
]

dependencies_iff :
    (messages : Map Message) (refs : List String)
    → (dependencies_completed refs (states_of messages) ≡ true)
      ↔ All (λ r. (trim_space r ≡ "") ⊎ Completed messages (trim_space r)) refs
unfolding dependencies_completed
dependencies_iff messages [] = (λ h. tt, λ p. refl)
dependencies_iff messages (r ∷ refs) =
    let ref = trim_space r in
    let later = dependencies_iff messages refs in
    let here = Completed-iff messages ref in
    (
      λ h. elim (Bool-cases (ref == "")) [
        | inl blank ↦ (inl ((eq_iff ref "").0 blank), later.0 (ground arith))
        | inr named ↦ (inr (here.0 (ground arith)), later.0 (ground arith))
      ],
      λ p. elim p.0 [
        | inl blank ↦ ground (arith, (eq_iff ref "").1 blank, later.1 p.1)
        | inr done ↦ ground (arith, here.1 done, later.1 p.1)
      ],
    )

-- The tests of the code decide eligibility.
pub Eligible-iff :
    (claim : ClaimNextRequest) (s : Store) (m : Message)
    → (is_eligible claim (states_of s.messages) m ≡ true) ↔ Eligible claim s m
unfolding is_eligible message_claimable_by_endpoint message_routable_to_endpoint
    message_dependencies_completed
Eligible-iff claim s m =
    let ref = claim.endpoint.endpoint_ref in
    let addressed = addressed_iff m ref in
    let able = CanHandle-iff claim.endpoint m.target_capability in
    let preferred = preferred_iff claim.preferred_endpoints m ref in
    let done = dependencies_iff s.messages m.depends_on_message_refs in
    (
      λ h. record {
        addressed = addressed.0 (ground arith);
        able = able.0 (ground arith);
        preferred = preferred.0 (ground arith);
        dependencies = done.0 (ground arith);
      },
      λ e. ground (
        arith,
        addressed.1 e.addressed,
        able.1 e.able,
        preferred.1 e.preferred,
        done.1 e.dependencies,
      ),
    )
