-- ===== src/Production.antt =====
-- uv_studio/production
pub mod State
pub mod Semantics
pub mod Commands
