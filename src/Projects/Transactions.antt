-- ===== src/Projects/Transactions.antt =====
-- uv_studio/projects/transactions.py: transactions over the JSON documents of a project, with a
-- journal for crash recovery and a durable history for undo and redo.
pub mod Model
pub mod Journal
pub mod Commit
pub mod Cursor
pub mod Restore
pub mod Recovery
pub mod Steps
pub mod Atomicity
pub mod Commits
pub mod Encoding
pub mod Saving
pub mod Succeeding
pub mod Cursors
pub mod Moving
