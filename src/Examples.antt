-- ===== src/Examples.antt =====
-- The results at concrete requests, and runs of the code.
mod Data
mod Histories
mod Claims
mod Records
mod Retry
mod Governance
mod Worker
