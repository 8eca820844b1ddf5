-- ===== src/Service.antt =====
-- tc-server/internal/application: the service over the memory store and an optional delivery adapter.
pub mod AttemptState
pub mod World
pub mod Rules
pub mod Lookups
pub mod ErrorText
pub mod Endpoints
pub mod Ingress
pub mod Claims
pub mod Attempts
pub mod Artifacts
pub mod SideEffects
pub mod Commands
pub mod Guards
pub mod Preserves
pub mod Approval
pub mod Fencing
pub mod SelfApproval
pub mod History
