-- ===== src/Contracts.antt =====
-- internal/communication/contracts: the wire records, field by field.
pub mod Policy
pub mod Endpoints
pub mod Messages
pub mod Attempts
pub mod Governance
