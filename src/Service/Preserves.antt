-- ===== src/Service/Preserves.antt =====
-- The invariant of the store through the requests of senders and workers, replays and cancellations.
pub mod Basics
pub mod Claims
pub mod Checkpoints
pub mod Leases
pub mod Completion
pub mod Cancel
pub mod Ingress
pub mod ClaimsNext
pub mod Records
