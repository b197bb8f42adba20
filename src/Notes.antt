-- ===== src/Notes.antt =====
-- Notes (objects/src/notes).
pub mod Script
pub mod Origin
pub mod Tag
pub mod Metadata
pub mod NoteAssets
pub mod NoteInputs
pub mod Commitments
