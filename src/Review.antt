-- ===== src/Review.antt =====
-- The review of one pull request (internal/core/pipelines/review/pipeline.go).
pub mod Diff
pub mod Context
pub mod Posting
pub mod Ending
pub mod Publishing
pub mod Process
