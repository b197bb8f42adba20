-- ===== src/Blocks.antt =====
-- Blocks (objects/src/block).
pub mod Header
pub mod NoteTree
