-- ===== src/Video.antt =====
-- src/llm_vs_zombies/video.py: the streaming video and its tick grid.
pub mod Types
pub mod Frames
pub mod Opening
pub mod Timeline
pub mod Submitting
pub mod Session
pub mod Closing
mod Tests
