-- ===== src/Governance.antt =====
-- internal/communication/governance: the approvals and the artifact versions that belong to a
-- reference, as the control plane asks for them.
pub mod Order
pub mod Records
pub mod Text
pub mod Answers
pub mod Chain
pub mod Lineage
