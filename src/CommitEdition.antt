-- ===== src/CommitEdition.antt =====
-- The commit of an edition (`src/app/operations/commit_edition.rs`).
pub mod CollectGaps
pub mod CloneEvents
pub mod Call
