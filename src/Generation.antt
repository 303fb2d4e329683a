-- ===== src/Generation.antt =====
-- uv_studio/generation
pub mod Jobs
