-- ===== src/Examples.antt =====
-- Tests on concrete inputs, and the theorems applied to some.
mod World
mod Core
mod Review
mod Feedback
mod Gateway
mod RulesSync
mod Indexer
mod Backfill
mod Config
mod Admin
mod Adapters
