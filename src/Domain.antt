-- ===== src/Domain.antt =====
-- tc-server/internal/domain.
pub mod States
pub mod Errors
pub mod Model
pub mod Routing
pub mod Validation
