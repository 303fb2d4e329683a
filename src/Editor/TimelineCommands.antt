-- ===== src/Editor/TimelineCommands.antt =====
-- uv_studio/editor/timeline_commands.py: the commands that change the timeline of a project.
pub mod Commands
pub mod Updates
pub mod Service
pub mod Swapping
pub mod Replacing
pub mod Exchanging
pub mod Changing
pub mod Moving
pub mod Creating
pub mod Adding
pub mod Removing
pub mod Reachability
pub mod Staging
pub mod Durability
pub mod Constructing
