-- ===== src/Quality.antt =====
-- internal/communication/quality: the quality decision on a message.
pub mod Names
pub mod Policy
pub mod Lineage
pub mod Rules
pub mod Gate
pub mod Outcomes
