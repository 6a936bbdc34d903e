-- ===== src/Rag.antt =====
-- Retrieval and the checking of answers: packages/rag.
pub mod Citations
pub mod Occurrences
pub mod Drafts
pub mod Supported
pub mod Hits
pub mod Merging
pub mod Context
pub mod Spacing
pub mod Budgeted
pub mod Fusion
pub mod Capped
pub mod Represented
pub mod Diversity
mod Tests
