-- ===== src/Client.antt =====
-- src/llm_vs_zombies/client.py: the framed transport, the checks of a completed step, and the branch that
-- a client is bound to.
pub mod Framing
pub mod Step
pub mod Branch
mod Tests
