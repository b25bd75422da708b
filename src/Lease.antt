-- ===== src/Lease.antt =====
-- The device lease journal of src/llm_vs_zombies/branch_workers.py.
pub mod Journal
pub mod Sealing
pub mod Windows
pub mod Counting
pub mod Opened
pub mod Pairing
mod Tests
