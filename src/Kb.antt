-- ===== src/Kb.antt =====
-- go-watch-file/internal/kb: the knowledge base, articles with all their versions in SQLite tables.
pub mod Types
pub mod Normal
pub mod Store
pub mod Queries
pub mod Writes
pub mod Annexes
pub mod Logic
pub mod Commits
pub mod Frame
pub mod Statements
pub mod Status
pub mod Effects
pub mod Changes
pub mod Serve
pub mod History
pub mod Reviews
pub mod Lists
pub mod Search
pub mod Tokens
pub mod Docs
pub mod Imports
pub mod Fates
pub mod Tally
pub mod Bounds
pub mod Tests
