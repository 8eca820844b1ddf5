-- ===== src/Memory/Claim/Exclusive.antt =====
-- Two calls of ClaimMessage on one message, one after the other.
use mathlib.Core.Path.{subst}
use touch_connect.Prelude.{
  ◌+◌, ◌≤◌, ◌<◌, true, false, ◌==◌, leb, ◌≡◌, ◌≢◌, refl, sym, ap, ◌∙◌, inl, inr, arith, Bool-cases,
  Option, none, some,
}
use touch_connect.GoMap.{get, put}
use touch_connect.GoMap.Laws.{get-put_self, get-put_ne}
use touch_connect.Domain.States.{
  message_state_claimed, message_state_available, message_state_dead_lettered,
  message_state_takeover_candidate, attempt_state_orphaned,
}
use touch_connect.Domain.Errors.{Result, ok, err, message_unavailable}
use touch_connect.Domain.Model.{Message, Attempt, Checkpoint, ClaimRequest, ClaimResult}
use touch_connect.Memory.Store.{Store}
use touch_connect.Service.AttemptState.{attempt_closed}
use touch_connect.Memory.Claim.{
  claim_message, claim_found, claim_leased, with_attempt, claim_available_message, takeover_message,
  resume_from, succeed, orphan_attempt, new_attempt,
}
use touch_connect.Memory.Claim.Outcomes.{Handed, HandedIf, claim_message-Handed}

-- The outcome of a second claim, after a first one that returned `r` and left the store `t`.
abbrev pub AfterClaim :
    ClaimRequest → ClaimResult → ClaimRequest → Store → Result ClaimResult × Store → Type 0
AfterClaim first r second t (ok q, u) =
    (first.lease_expires_at < second.now)
    × (q.takeover ≡ true)
    × (q.attempt.claim_epoch ≡ r.attempt.claim_epoch + 1)
    × (second.attempt_ref ≢ first.attempt_ref
        → (a : Attempt) × (get u.attempts first.attempt_ref ≡ some a)
          × (attempt_closed a.state ≡ true))
AfterClaim first r second t (err e, u) =
    second.now ≤ first.lease_expires_at → (e ≡ message_unavailable) × (u ≡ t)

-- A claim of a claimed message goes to the test of its lease.
to_claim_leased :
    (m : Message) (a : Attempt) (claim : ClaimRequest) (s : Store)
    → get s.messages claim.message_ref ≡ some m
    → m.state ≡ message_state_claimed
    → get s.attempts m.attempt_ref ≡ some a
    → claim_message claim s ≡ claim_leased m a claim s
unfolding claim_message claim_found with_attempt
to_claim_leased m a claim s e here ea =
    let free : (m.state == message_state_available) ≡ false = rw here refl in
    let live : (m.state == message_state_dead_lettered) ≡ false = rw here refl in
    let later : (m.state == message_state_takeover_candidate) ≡ false = rw here refl in
    let claimed : (m.state == message_state_claimed) ≡ true = rw here refl in
    rw (e, claim_message, free, live, later, claimed, ea) refl

module _ (first second : ClaimRequest) (t : Store) (r : ClaimResult) (h : Handed first t r) where
  orphan_closed :
      (x : Attempt)
      → second.attempt_ref ≢ first.attempt_ref
      → (a : Attempt) × (get
            (put (orphan_attempt r.attempt t).attempts second.attempt_ref x)
            first.attempt_ref
          ≡ some a)
        × (attempt_closed a.state ≡ true)
  unfolding orphan_attempt attempt_closed
  orphan_closed x other =
      let orphan : Attempt = record r.attempt { state = attempt_state_orphaned } in
      let attempts = put t.attempts r.attempt.attempt_ref orphan in
      (
        orphan,
        get-put_ne attempts second.attempt_ref first.attempt_ref x other
            ∙ (ap (get attempts) (sym h.named)
                ∙ get-put_self t.attempts r.attempt.attempt_ref orphan),
        refl,
      )

  resumed-AfterClaim :
      (o : Option Checkpoint)
      → first.lease_expires_at < second.now
      → (let (q, u) =
            claim_available_message
              (record r.message { redelivery_count = r.message.redelivery_count + 1 })
              second
              (orphan_attempt r.attempt t) in
          AfterClaim first r second t (ok (resume_from o q), u))
  unfolding claim_available_message resume_from new_attempt
  resumed-AfterClaim none late = (late, refl, omega (arith, h.epoch), orphan_closed _)
  resumed-AfterClaim (some latest) late = (late, refl, omega (arith, h.epoch), orphan_closed _)

  takeover-AfterClaim :
      first.lease_expires_at < second.now
      → AfterClaim first r second t
          (succeed (takeover_message r.message second (orphan_attempt r.attempt t)))
  unfolding takeover_message
  takeover-AfterClaim = resumed-AfterClaim _

  claim_leased-AfterClaim : AfterClaim first r second t (claim_leased r.message r.attempt second t)
  unfolding claim_leased
  claim_leased-AfterClaim = elim (Bool-cases (leb second.now r.attempt.lease_expires_at)) [
    | inl soon ↦ rw soon (λ early. (refl, refl))
    | inr late ↦
        let over : first.lease_expires_at < second.now = ground (arith, h.leased) in
        elim (Bool-cases (leb second.max_redelivery r.message.redelivery_count)) [
          | inl full ↦ rw (late, full) (λ early. absurd (omega (arith, over, early)))
          | inr room ↦ rw (late, room) (takeover-AfterClaim over)
        ]
  ]

-- Where ClaimMessage hands a message out and the next step on the store is another claim of it, the
-- second one is refused as unavailable and changes nothing up to the end of the first one's lease, the
-- last instant included. Where the second one gets the message, the lease has passed, it is a takeover
-- with the next epoch, and it leaves the first attempt closed, unless it takes that attempt's reference.
pub claim_message-exclusive :
    (first second : ClaimRequest) (s t : Store) (r : ClaimResult)
    → claim_message first s ≡ (ok r, t)
    → second.message_ref ≡ r.message.message_ref
    → AfterClaim first r second t (claim_message second t)
claim_message-exclusive first second s t r e same =
    let h : Handed first t r = subst (HandedIf first) e (claim_message-Handed first s) in
    let ea = ap (get t.attempts) h.current ∙ h.attempt_stored in
    let em = ap (get t.messages) same ∙ h.message_stored in
    rw (to_claim_leased r.message r.attempt second t em h.message_claimed ea)
      (claim_leased-AfterClaim first second t r h)
