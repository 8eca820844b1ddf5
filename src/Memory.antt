-- ===== src/Memory.antt =====
-- tc-server/internal/infrastructure/memory: the store that the service runs on in development. Each
-- method holds the mutex from its first line to its return, so it is one step on the state.
pub mod Store
pub mod Refs
pub mod Sort
pub mod Ledger
pub mod Claim
pub mod ClaimNext
pub mod Reconcile
pub mod Snapshots
pub mod Invariant
pub mod SideEffects
