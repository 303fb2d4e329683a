-- ===== src/Examples.antt =====
-- Runs of the theorems at concrete inputs.
mod Timelines
mod Ranges
mod Edits
mod Identities
mod Journals
mod Jobs
mod Commands
mod Production
mod Acceptance
mod Migrations
