-- ===== src/Audio.antt =====
-- The tick-driven audio model (src/llm_vs_zombies/virtual_audio.py).
pub mod Types
pub mod Checked
pub mod Mixer
pub mod Writes
pub mod Position
pub mod Resume
pub mod Reopen
pub mod Pitch
pub mod Device
pub mod Observer
pub mod Foley
pub mod Entry
pub mod Stream
pub mod Compare
pub mod Intervals
pub mod Coverage
pub mod Counted
pub mod Equality
pub mod Verdict
pub mod Unobserved
mod Tests
