-- ===== src/Codec.antt =====
-- src/llm_vs_zombies/evidence_codec.py: the directory, the compression of its evidence and the store
-- that reads it. A directory maps names to bytes, and the receipt in it is kept as the value that its
-- text encodes. gzip and SHA-256 are parameters, and a table says which steps of the operating system
-- fail.
pub mod Directory
pub mod Compress
pub mod Store
pub mod Kept
pub mod Rollback
mod Tests
