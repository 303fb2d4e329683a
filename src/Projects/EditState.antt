-- ===== src/Projects/EditState.antt =====
-- uv_studio/projects/edit_state.py: the accepted range edits of a project.
pub mod Edit
pub mod State
pub mod Store
pub mod Order
pub mod Disjoint
pub mod Changes
pub mod Document
pub mod Acceptance
