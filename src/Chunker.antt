-- ===== src/Chunker.antt =====
-- zen_claw/knowledge/chunker.py: documents cut into chunks.
pub mod Pack
pub mod Pieces
pub mod Lengths
pub mod Bounds
pub mod Ending
mod Tests
