-- ===== src/Worker/Lease/Alive.antt =====
-- A keeper that is not late never loses its lease.
use mathlib.Core.Path.{subst}
use touch_connect.Prelude.{
  ℕ, ◌+◌, ◌≤◌, String, true, false, not, ◌==◌, none, some, List, [], ◌∷◌, All, ◌≡◌, ◌≢◌, ◌⊎◌, refl,
  sym, ap, ◌∙◌, arith, Bool-cases, Option-cases, inl, inr, eq_iff,
}
use touch_connect.GoMap.{get, put}
use touch_connect.GoMap.Laws.{get-put_self}
use touch_connect.Platform.{Platform}
use touch_connect.Contracts.Attempts.{RefreshLeaseResponse}
use touch_connect.Domain.Errors.{Result, ok, err}
use touch_connect.Domain.Model.{Attempt}
use touch_connect.Memory.Store.{Store}
use touch_connect.Memory.Ledger.{get_attempt}
use touch_connect.Service.AttemptState.{attempt_closed}
use touch_connect.Service.World.{Service, World}
use touch_connect.Service.World
use touch_connect.Service.Rules.{Ends, Ends-pure}
use touch_connect.Service.Rules.Succeeds.{
  Ends-ensure-true, Ends-lookup_some, Ends-update_attempt-some,
}
use touch_connect.Service.Attempts.{refresh_lease}
use touch_connect.Service.History.{at}
use touch_connect.Worker.Lease.{
  interval_until, lease_refresh_interval, keep_lease, millisecond, second,
}

ne_false : (s t : String) → s ≢ t → (s == t) ≡ false
ne_false s t h = elim (Bool-cases (s == t)) [ inl e ↦ absurd (h ((eq_iff s t).0 e)) | inr e ↦ e ]

interval_until_bounds :
    (expires_at now : ℕ)
    → (millisecond ≤ interval_until expires_at now)
      × (now + millisecond + millisecond ≤ expires_at
          → now + interval_until expires_at now + interval_until expires_at now ≤ expires_at)
unfolding interval_until
interval_until_bounds expires_at now = (ground arith, λ h. ground arith)

waits_a_second :
    (p : Platform) (now : ℕ) (text : String)
    → (text ≡ "") ⊎ (p.parse_time text ≡ none)
    → lease_refresh_interval p now text ≡ second
unfolding lease_refresh_interval
waits_a_second p now text (inl e) = rw ((eq_iff text "").1 e) refl
waits_a_second p now text (inr e) = elim (Bool-cases (text == "")) [
  | inl blank ↦ rw blank refl
  | inr set ↦ rw (set, e) refl
]

-- The keeper waits a millisecond at least, and, under a lease that runs for two milliseconds or more,
-- no longer than to the middle of what is left of it; without a time that it can read it waits a second.
pub lease_refresh_interval_bounds :
    (p : Platform) (now : ℕ) (text : String)
    → (millisecond ≤ lease_refresh_interval p now text)
      × ((expires_at : ℕ)
          → text ≢ ""
          → p.parse_time text ≡ some expires_at
          → now + millisecond + millisecond ≤ expires_at
          → now + lease_refresh_interval p now text + lease_refresh_interval p now text
            ≤ expires_at)
      × ((text ≡ "") ⊎ (p.parse_time text ≡ none) → lease_refresh_interval p now text ≡ second)
unfolding lease_refresh_interval
lease_refresh_interval_bounds p now text = (
  elim (Bool-cases (text == "")) [
    | inl e ↦ rw e (omega arith)
    | inr e ↦ rw e (elim (Option-cases (p.parse_time text)) [
      | inl unread ↦ rw unread (omega arith)
      | inr (expires_at, read) ↦ rw read ((interval_until_bounds expires_at now).0)
    ])
  ],
  λ expires_at named read long.
      rw (ne_false text "" named, read) ((interval_until_bounds expires_at now).1 long),
  λ unread. waits_a_second p now text unread,
)

-- The endpoint holds the attempt, which is open, under a lease that ends at `expires_at`.
pub record HoldsUntil (s : Store) (ref endpoint_ref : String) (expires_at : ℕ) : Type 0 where
  pub attempt : Attempt
  pub stored : get s.attempts ref ≡ some attempt
  pub named : attempt.attempt_ref ≡ ref
  pub mine : attempt.endpoint_ref ≡ endpoint_ref
  pub still_open : attempt_closed attempt.state ≡ false
  pub lease : attempt.lease_expires_at ≡ expires_at

-- The text of a time is set, and is read back.
pub record ReadsTimes (p : Platform) : Type 0 where
  pub parse-format : (t : ℕ) → p.parse_time (p.format_time t) ≡ some t
  pub format_set : (t : ℕ) → p.format_time t ≢ ""

in_time_unexpired :
    (svc : Service) (a : Attempt) (expires_at : ℕ)
    → a.lease_expires_at ≡ expires_at
    → svc.settings.now ≤ expires_at
    → not (World.lease_expired svc.settings a) ≡ true
unfolding World.lease_expired
in_time_unexpired svc a expires_at lease in_time = ground arith

module _ (ref endpoint_ref : String) (named : endpoint_ref ≢ "") where
  -- The refreshed lease is returned and stored.
  abbrev Refreshed : Service → Result RefreshLeaseResponse × World → Type 0
  Refreshed svc (ok lease, w) =
      let expires_at = svc.settings.now + svc.settings.attempt_lease_duration in
      (lease.lease_expires_at ≡ svc.platform.format_time expires_at)
      × HoldsUntil w.store ref endpoint_ref expires_at
  Refreshed svc (err e, w) = ⊥

  refresh_lease-Refreshed :
      (svc : Service) (w : World) (expires_at : ℕ)
      → HoldsUntil w.store ref endpoint_ref expires_at
      → svc.settings.now ≤ expires_at
      → Ends (Refreshed svc) (refresh_lease svc ref (record { endpoint_ref = endpoint_ref })) w
  unfolding refresh_lease get_attempt
  refresh_lease-Refreshed svc w expires_at h in_time =
      let a = h.attempt in
      let next : Attempt = record a {
        lease_expires_at = svc.settings.now + svc.settings.attempt_lease_duration;
      } in
      Ends-lookup_some _ _ _ h.stored (
        Ends-ensure-true _ _ _
          (ground (
            arith,
            eq_iff endpoint_ref "",
            eq_iff h.attempt.endpoint_ref endpoint_ref,
            h.mine,
            h.still_open,
          ))
          (Ends-ensure-true _ _ _ (in_time_unexpired svc h.attempt expires_at h.lease in_time) (
            Ends-update_attempt-some next _ (ap (get w.store.attempts) h.named ∙ h.stored) (
              Ends-pure _ (
                refl,
                record {
                  attempt = next;
                  stored =
                      ap (get (put w.store.attempts a.attempt_ref next)) (sym h.named)
                      ∙ get-put_self w.store.attempts a.attempt_ref next;
                  named = h.named;
                  mine = h.mine;
                  still_open = h.still_open;
                  lease = refl;
                },
              )))))

  -- A keeper stopped without an error: the lease that it knows is the one stored, and has two
  -- milliseconds left at least.
  abbrev pub StillHeld : Service → Result (ℕ × String) × World → Type 0
  StillHeld svc (ok (now, text), w) =
      (expires_at : ℕ) × (text ≡ svc.platform.format_time expires_at)
      × HoldsUntil w.store ref endpoint_ref expires_at
      × (now + millisecond + millisecond ≤ expires_at)
  StillHeld svc (err e, w) = ⊥

  module _ (svc : Service) (reads : ReadsTimes svc.platform)
      (long : millisecond + millisecond ≤ svc.settings.attempt_lease_duration) where
    next_round :
        (called : ℕ) (delays : List ℕ) (answer : Result RefreshLeaseResponse × World)
        → Refreshed (at svc called) answer
        → ((expires_at : ℕ) (w : World)
            → HoldsUntil w.store ref endpoint_ref expires_at
            → called + millisecond + millisecond ≤ expires_at
            → StillHeld svc (
                keep_lease svc endpoint_ref ref delays called
                  (svc.platform.format_time expires_at)
                  w))
        → StillHeld svc (elim answer.0 [
          | err e ↦ (err e, answer.1)
          | ok lease ↦ keep_lease svc endpoint_ref ref delays called lease.lease_expires_at answer.1
        ])
    next_round called delays (err e, w) h rest = h
    next_round called delays (ok lease, w) h rest =
        subst (λ text. StillHeld svc (keep_lease svc endpoint_ref ref delays called text w))
          (sym h.0) (rest (called + svc.settings.attempt_lease_duration) w h.1 (omega arith))

    -- While no other request comes, a keeper whose rounds are each at most a millisecond late keeps the
    -- lease of an open attempt of its endpoint, whose reference is not empty, for any number of rounds: no refresh is refused, and the
    -- lease stored at the end is the one the keeper knows, with two milliseconds left or more. The
    -- server's leases and the first one run for two milliseconds or more, and the text of a time is
    -- read back as that time.
    pub keep_lease-StillHeld :
        (delays : List ℕ) (now expires_at : ℕ) (w : World)
        → All (λ delay. delay ≤ millisecond) delays
        → HoldsUntil w.store ref endpoint_ref expires_at
        → now + millisecond + millisecond ≤ expires_at
        → StillHeld svc
            (keep_lease svc endpoint_ref ref delays now (svc.platform.format_time expires_at) w)
    unfolding keep_lease
    keep_lease-StillHeld [] now expires_at w late h left = (expires_at, refl, h, left)
    keep_lease-StillHeld (delay ∷ delays) now expires_at w late h left =
        let text = svc.platform.format_time expires_at in
        let called = now + lease_refresh_interval svc.platform now text + delay in
        let (least, middle, _) = lease_refresh_interval_bounds svc.platform now text in
        let halfway =
          middle expires_at (reads.format_set expires_at) (reads.parse-format expires_at) left in
        next_round called delays _
          (refresh_lease-Refreshed (at svc called) w expires_at h (omega (arith, late.0))).holds
          (λ later v held enough. keep_lease-StillHeld delays called later v late.1 held enough)
