-- ===== src/Production/Semantics.antt =====
-- uv_studio/production/semantics.py: the scenes, shots and takes of a production.
pub mod Values
pub mod Entities
pub mod Links
pub mod Checks
pub mod Entries
pub mod Document
pub mod Linking
pub mod Passing
pub mod Validity
pub mod Construction
pub mod Reading
pub mod Printing
pub mod Growing
