-- ===== src/Projects.antt =====
-- uv_studio/projects: the documents of one project.
pub mod Errors
pub mod Identifiers
pub mod Paths
pub mod MediaRanges
pub mod Files
pub mod EditState
pub mod References
pub mod Timeline
pub mod Migrations
pub mod Identity
pub mod Transactions
