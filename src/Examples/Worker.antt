-- ===== src/Examples/Worker.antt =====
-- A worker that echoes: it finds a claim, and completes it.
use touch_connect.Prelude.{
  ℕ, zero, suc, ◌+◌, ◌≤◌, pos, String, true, false, ◌≡◌, ◌≢◌, ◌⊎◌, refl, ap, arith, Option, none,
  some, List, [], ◌∷◌, All, length, if◌then◌else◌, eq_iff, any,
}
use touch_connect.GoMap.{get}
use touch_connect.Platform.{Platform}
use touch_connect.Contracts.Messages.{ClaimMessageResponse}
use touch_connect.Domain.Errors.{lease_expired}
use touch_connect.Domain.Model.{Attempt}
use touch_connect.Memory.Store.{new_store}
use touch_connect.Service.AttemptState.{attempt_closed}
use touch_connect.Service.World.{Service, World}
use touch_connect.Api.Answers.{ErrorResponse, write_failure, is_conflict_error}
use touch_connect.Worker.Errors.{is_success}
use touch_connect.Worker.Errors.Dropped.{ErrorCodec, is_plain, drops, conflict_drop, drops-conflict}
use touch_connect.Worker.Lease.{lease_refresh_interval, keep_lease, millisecond, second}
use touch_connect.Worker.Lease.Alive.{
  lease_refresh_interval_bounds, HoldsUntil, ReadsTimes, StillHeld, keep_lease-StillHeld,
}
use touch_connect.Worker.Work.{Ports, Runtime, done, ExecutionResult, call, mark_progress, ◌>>=◌}
use touch_connect.Worker.Canonical.{
  submit_readback_when_required, is_canonical_scenario, task_ref_for_claim,
}
use touch_connect.Worker.Claim.{acknowledge_claim, finish_claim_after_ack}
use touch_connect.Worker.Loop.{
  ProcessResult, Round, quiet, stopped, returns_nil, LoopOptions, process_next, run_processing_loop,
}
use touch_connect.Worker.Loop.Bound.{finished, run_processing_loop_bound}
use touch_connect.Worker.Completed.{Accepted, process_next-Completed}
use touch_connect.Examples.Data.{service, first_attempt}

abbrev plain_codec : ErrorCodec
plain_codec = record {
  Body = ErrorResponse;
  encode = λ r. r;
  decode = λ r. some r;
  decode-encode = λ r. refl;
}

drops-conflict_example :
    (is_success (write_failure lease_expired).0 ≡ false)
    × (drops plain_codec (λ status. "") lease_expired ≡ (
        if is_conflict_error lease_expired
        then some (conflict_drop plain_codec (λ status. "") lease_expired)
        else none))
unfolding is_plain
drops-conflict_example = drops-conflict plain_codec (λ status. "") lease_expired refl

-- A time as so many ticks.
ticks : ℕ → String
ticks zero = "."
ticks (suc n) = String.◌∷◌ "." (ticks n)

count_ticks : String → Option ℕ
count_ticks String.[] = none
count_ticks (String.◌∷◌ c String.[]) = some 0
count_ticks (String.◌∷◌ c (String.◌∷◌ d s)) = elim (count_ticks (String.◌∷◌ d s)) [
  | none ↦ none
  | some n ↦ some (suc n)
]

count_ticks-ticks : (t : ℕ) → count_ticks (ticks t) ≡ some t
unfolding count_ticks ticks
count_ticks-ticks zero = refl
count_ticks-ticks (suc zero) = refl
count_ticks-ticks (suc (suc t)) = rw (count_ticks-ticks (suc t)) refl

ticks_set : (t : ℕ) → ticks t ≢ ""
unfolding count_ticks
ticks_set t e = ground (arith, count_ticks-ticks t, ap count_ticks e)

abbrev ticking : Platform
ticking = record { to_lower = λ s. s; format_time = ticks; parse_time = count_ticks }

ticking-ReadsTimes : ReadsTimes ticking
ticking-ReadsTimes = record { parse-format = count_ticks-ticks; format_set = ticks_set }

lease_refresh_interval_bounds_example :
    (millisecond ≤ lease_refresh_interval ticking 5 "...")
    × ((expires_at : ℕ)
        → ◌≢◌ {A = String} "..." ""
        → count_ticks "..." ≡ some expires_at
        → 5 + millisecond + millisecond ≤ expires_at
        → 5 + lease_refresh_interval ticking 5 "..." + lease_refresh_interval ticking 5 "..."
          ≤ expires_at)
    × ((◌≡◌ {A = String} "..." "") ⊎ (count_ticks "..." ≡ none)
        → lease_refresh_interval ticking 5 "..." ≡ second)
lease_refresh_interval_bounds_example = lease_refresh_interval_bounds ticking 5 "..."

-- Leases run for ten milliseconds.
abbrev ticking_service : Service
ticking_service = record service {
  settings = record service.settings { attempt_lease_duration = 10000000 };
  platform = ticking;
}

abbrev held_attempt : Attempt
held_attempt = record first_attempt { lease_expires_at = 10000005 }

abbrev held_world : World
held_world = record {
  store = record new_store { attempts = ("tc://attempt/att_000001", held_attempt) ∷ [] };
  calls = [];
}

held : HoldsUntil held_world.store "tc://attempt/att_000001" "w" 10000005
unfolding get attempt_closed
held = record {
  attempt = held_attempt;
  stored = refl;
  named = refl;
  mine = refl;
  still_open = refl;
  lease = refl;
}

w_is_named : ◌≢◌ {A = String} "w" ""
w_is_named = ground (arith, eq_iff "w" "")

-- Three rounds, late by nothing, by a millisecond and by half of one.
keep_lease-StillHeld_example : StillHeld "tc://attempt/att_000001" "w" w_is_named ticking_service (
    keep_lease ticking_service "w" "tc://attempt/att_000001"
      (0 ∷ 1000000 ∷ 500000 ∷ [])
      5
      (ticks 10000005)
      held_world)
keep_lease-StillHeld_example =
    keep_lease-StillHeld "tc://attempt/att_000001" "w" w_is_named ticking_service ticking-ReadsTimes
      (omega arith) (0 ∷ 1000000 ∷ 500000 ∷ []) 5 10000005 held_world (omega arith) held
      (omega arith)

abbrev claim : ClaimMessageResponse
claim = record {
  message_ref = "m";
  attempt_ref = "a";
  endpoint_ref = "w";
  state = "claimed";
  lease_expires_at = "";
  takeover = false;
  redelivery_count = 0;
  last_checkpoint_ref = "";
  resume_summary = "";
  resume_artifact_refs = [];
  readback_required = false;
  target_capability = "code.review";
  target_endpoint_ref = "";
  preferred_endpoint_ref = "";
  depends_on_message_refs = [];
  correlation_ref = "t";
  payload = record { summary = "review"; body = ""; references = none };
  constraints = none;
  payload_summary = "review";
  constraint_summary = "";
  confidence_band = "";
}

abbrev echoed : ExecutionResult
echoed = record {
  outcome = "completed";
  summary = "message completed";
  artifact_refs = [];
  used_skill_refs = [];
  missing_fields = [];
  failure_reason_code = "";
  stdout = "";
  stderr = "";
  exit_code = pos 0;
  duration_ms = pos 0;
  follow_up_messages = [];
}

-- A server that accepts all, and counts the completions.
abbrev ports : Ports ℕ
ports = record {
  endpoint_ref = "w";
  claim_next_message = λ req n. (done (record { empty = false; claim = some claim }), n);
  submit_checkpoint = λ ref req n. (
    done (record {
      checkpoint_ref = "c";
      attempt_ref = ref;
      state = req.state;
      revision = 1;
      confidence_band = "";
    }),
    n,
  );
  submit_readback =
      λ ref req n. (done (record { readback_ref = "r"; attempt_ref = ref; revision = 1 }), n);
  refresh_lease = λ ref req n.
      (done (record { attempt_ref = ref; state = "claimed"; lease_expires_at = "" }), n);
  complete_attempt = λ ref req n. (
    done (record { attempt_ref = ref; state = "completed"; follow_up_message_refs = [] }),
    n + 1,
  );
  register_artifact_version = λ ref req n. (
    done (record {
      artifact_ref = "";
      artifact_version_ref = "";
      attempt_ref = ref;
      message_ref = "";
      created_by_endpoint_ref = "";
      created_at = "";
    }),
    n,
  );
  execute = λ c n. (done echoed, n);
  store_execution_log = none;
  record_approval_decision = λ ref req n. (
    done (record {
      approval_ref = "";
      attempt_ref = ref;
      status = "";
      approval_hash = "";
      decided_by_actor_id = "";
      decided_at = "";
    }),
    n,
  );
  start_side_effect_execution = λ ref req n. (
    done (record {
      side_effect_execution_ref = "";
      attempt_ref = ref;
      status = "";
      deduped = true;
      started_at = "";
    }),
    n,
  );
  complete_side_effect_execution = λ ref req n.
      (done (record { side_effect_execution_ref = ref; status = ""; completed_at = "" }), n);
  keeper_error = λ c lease n. none;
  status_text = λ status. "";
  sha256_hex = λ s. "0123456789abcdef0123456789abcdef";
}

abbrev idle : Runtime ℕ
idle = record {
  outside = 0;
  current_attempt_ref = "";
  progress_summary = "";
  readback_submitted = [];
}

abbrev completed_result : ProcessResult
completed_result = record {
  empty = false;
  message_ref = "m";
  attempt_ref = "a";
  task_ref = "t";
  correlation_ref = "t";
  outcome = "completed";
  completed = true;
  blocked = false;
  failed = false;
  dropped = false;
  drop_reason = "";
}

echo_completes : (process_next ports idle).0 ≡ done completed_result
unfolding process_next ◌>>=◌ call acknowledge_claim mark_progress finish_claim_after_ack
    is_canonical_scenario any submit_readback_when_required task_ref_for_claim
echo_completes = refl

process_next-Completed_example : Accepted ports "a"
process_next-Completed_example =
    process_next-Completed ports idle completed_result echo_completes refl

abbrev one_message : LoopOptions
one_message = record {
  poll_interval = pos second;
  heartbeat_interval = pos second;
  max_messages = pos 1;
}

abbrev two_rounds : List Round
two_rounds =
    record { before = quiet; waiting = quiet } ∷ record { before = quiet; waiting = quiet } ∷ []

run_processing_loop_bound_example :
    (finished (run_processing_loop ports one_message two_rounds 0 idle).1 ≤ 1)
    × ((run_processing_loop ports one_message two_rounds 0 idle).0 ≡ returns_nil
        → All (λ (round : Round). round.before ≢ stopped) two_rounds
        → 1 ≤ length (run_processing_loop ports one_message two_rounds 0 idle).1)
run_processing_loop_bound_example =
    run_processing_loop_bound ports one_message 1 refl (omega arith) two_rounds idle
