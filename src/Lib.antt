-- ===== src/Lib.antt =====
-- touch-connect: workers register as endpoints, senders hand in messages, and the server passes each
-- message to one worker at a time under a lease, takes it over when the lease runs out, and
-- dead-letters it after too many redeliveries. The development models the server's core.
--
-- Prelude and its children hold the shared names, tests and list lemmas; GoMap and GoText are Go's
-- maps with text keys and the functions of its strings package that the code uses; Exec is an
-- operation on a state that may fail, where what was written before an error stays written.
--
-- Contracts: the requests and responses of internal/communication/contracts.
-- Domain: tc-server/internal/domain: States and Model (model.go), Errors and Validation
--   (validation.go), Routing (routing.go; Routing.Meaning says who may take a message).
-- Quality: internal/communication/quality/validator.go: Names, Policy, Lineage, Rules (the rules and
--   ValidateMessage), Gate (ValidateMessageWithGate), Outcomes (when the gate rejects).
-- Memory: tc-server/internal/infrastructure/memory: Store (the fields), Ledger (reads and writes of
--   records), Refs (NextRef), Claim (ClaimMessage), ClaimNext (claim_next.go), Reconcile
--   (ReconcileExpiredClaims), Snapshots and Sort (Snapshot). Invariant says what holds of the store
--   between two steps; Claim.Step is ClaimMessage as a relation, Claim.Exclusive two calls of it,
--   Claim.Latest the checkpoint that a takeover resumes from; ClaimNext.Eligible and Picked say what
--   ClaimNextMessage may pick; SideEffects is about SaveSideEffectExecution.
-- Service: tc-server/internal/application: World (the store, the settings and the delivery adapter),
--   Endpoints, Ingress, Claims, Attempts (service.go), Artifacts (artifact_service.go,
--   artifact_finalize_service.go), SideEffects (side_effect_service.go), Commands
--   (control_commands.go). Rules, Guards and Preserves hold the rules by which an operation is read
--   step by step; History is a sequence of requests, all but RetryTask; Fencing, Approval and
--   SelfApproval are about attempts that are not live and about approvals.
-- Governance: internal/communication/governance/governance.go: Chain (BuildApprovalChain), Lineage
--   (BuildArtifactLineage); Lineage.Closure, Least, Minimal and Grows are about its closure loop;
--   Order, Lineage.Matched and Lineage.Dated are about what is matched and how it is sorted.
-- Api: tc-server/internal/adapters/api/handler.go, as far as it answers errors (writeResult).
-- Worker: tc-worker/internal: Errors (client/http_client.go, runtime/attempt_errors.go), Lease
--   (runtime/lease_keeper.go), Work (the state of runtime.go and progress.go, and the ports), Canonical
--   (canonical.go), Claim (runtime.go), Loop (loop.go). Errors.Dropped and Lease.Alive put the worker
--   and the server together.
-- Examples: runs at concrete requests.
--
-- A function keeps the name of the Go function, in small letters; where the service and the store
-- have one of the same name, the service's begins with service_. A time is a natural number of
-- nanoseconds since Go's zero time, and a request reads the clock once. Counters are unbounded.
-- Durations and the redelivery limit are natural numbers, as Settings.Validated leaves them. A map
-- keeps the order of first insertion where Go leaves the order open. That shows in the capability
-- names that are passed to the delivery adapter or answered (capabilityNames), and would show in which
-- of several side effects of one key and scope SaveSideEffectExecution finds, if it stored several;
-- elsewhere the code sorts, or asks only whether there is one. Loops are recursion on the lists they
-- range over; the decimal text of a number n runs on 6 + n rounds, and each takes a digit off. A method
-- of the memory store holds the mutex throughout and is one step. A handler is modelled as it runs when no other request comes between
-- its store calls.
--
-- The closure loop of a lineage runs on fuel of one round for each artifact and one more, which is
-- enough. The worker's processing loop runs over the rounds that it is given, each with what the context
-- and the heartbeats report; the lease keeper over the delays of its rounds. What the keeper's
-- goroutine reports when it is stopped is a port of the worker, and so are the executor, the artifact
-- store, SHA-256 and the client's calls; the progress reporter and the time of the last activity are
-- not modelled. Worker and server read one clock.
--
-- strings.ToLower and the RFC 3339 text of a time are the parameter Platform. The delivery adapter is
-- a parameter known by its answers, which may depend on all calls made before; the model records the
-- calls. The SQLite store, the JetStream and A2A adapters, the HTTP routes, the control plane, the
-- worker's executors, shell and registration, and the command line are not modelled: they are other
-- components, or input and output.
pub mod Prelude
pub mod GoMap
pub mod GoText
pub mod Contracts
pub mod Domain
pub mod Platform
pub mod Quality
pub mod Exec
pub mod Service
pub mod Memory
pub mod Governance
pub mod Api
pub mod Worker
pub mod Examples
