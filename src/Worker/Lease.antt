-- ===== src/Worker/Lease.antt =====
-- tc-worker/internal/runtime/lease_keeper.go: the goroutine that refreshes the lease of the attempt
-- while its executor runs. `delays` has, for each round, how long the timer and the call are late;
-- when it ends, the executor has returned and the keeper is stopped. Worker and server read one clock.
pub mod Alive
use touch_connect.Prelude.{
  ℕ, ◌+◌, ◌-◌, ◌/◌, String, ◌==◌, ltb, leb, if◌then◌else◌, none, some, List, [], ◌∷◌,
}
use touch_connect.Platform.{Platform}
use touch_connect.Domain.Errors.{Result, ok, err}
use touch_connect.Service.World.{Service, World}
use touch_connect.Service.Attempts.{refresh_lease}
use touch_connect.Service.History.{at}

-- Durations are in nanoseconds.
abbrev pub millisecond : ℕ
millisecond = 1000000

abbrev pub second : ℕ
second = 1000000000

abbrev pub minimum_lease_refresh_interval : ℕ
minimum_lease_refresh_interval = millisecond

-- From the time that is read to the lease's end.
unfoldable pub interval_until : ℕ → ℕ → ℕ
interval_until expires_at now =
    if leb expires_at now
    then minimum_lease_refresh_interval
    else if ltb ((expires_at - now) / 2) minimum_lease_refresh_interval
    then minimum_lease_refresh_interval
    else (expires_at - now) / 2

unfoldable pub lease_refresh_interval : Platform → ℕ → String → ℕ
unfolding interval_until
lease_refresh_interval p now lease_expires_at =
    if lease_expires_at == "" then second else elim (p.parse_time lease_expires_at) [
      | none ↦ second
      | some expires_at ↦ interval_until expires_at now
    ]

-- The loop of startLeaseKeeper, with the server as it answers refreshLease: the clock and the lease's
-- text when the keeper is stopped, or the error that stops it.
unfoldable pub keep_lease :
    Service → String → String → List ℕ → ℕ → String → World → Result (ℕ × String) × World
keep_lease svc endpoint_ref attempt_ref [] now lease_expires_at w = (ok (now, lease_expires_at), w)
keep_lease svc endpoint_ref attempt_ref (delay ∷ delays) now lease_expires_at w =
    let called = now + lease_refresh_interval svc.platform now lease_expires_at + delay in
    let answer =
      refresh_lease (at svc called) attempt_ref (record { endpoint_ref = endpoint_ref }) w in
    elim answer.0 [
      | err e ↦ (err e, answer.1)
      | ok lease ↦
          keep_lease svc endpoint_ref attempt_ref delays called lease.lease_expires_at answer.1
    ]
