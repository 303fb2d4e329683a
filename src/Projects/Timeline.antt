-- ===== src/Projects/Timeline.antt =====
-- uv_studio/projects/timeline.py: the canonical multitrack timeline of a project.
pub mod Errors
pub mod Clip
pub mod Track
pub mod Document
pub mod Store
pub mod Overlap
pub mod Validity
pub mod Construction
pub mod Reading
pub mod Printing
pub mod Lookup
pub mod Media
