-- ===== src/Generation/Jobs.antt =====
-- uv_studio/generation/jobs.py: jobs that generate media, and the attempts to execute them.
pub mod Attempt
pub mod Job
pub mod Transitions
pub mod Lifecycle
pub mod Reachability
pub mod Validity
pub mod Starting
pub mod Completing
