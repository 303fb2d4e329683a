-- ===== src/Production/Commands.antt =====
-- uv_studio/production/commands.py: the commands that change a production.
pub mod Errors
pub mod Updates
pub mod Registering
pub mod Extending
pub mod Scenes
pub mod WithShot
pub mod Shots
pub mod WithTake
pub mod Takes
pub mod Binding
pub mod Acceptance
pub mod Showing
pub mod Marking
pub mod Accepting
pub mod Once
pub mod Service
pub mod Loading
pub mod Running
