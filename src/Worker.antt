-- ===== src/Worker.antt =====
-- tc-worker: the client of the server and the runtime that claims messages and works on them.
pub mod Errors
pub mod Lease
pub mod Work
pub mod Canonical
pub mod Claim
pub mod Loop
pub mod Completed
