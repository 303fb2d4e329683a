-- ===== src/Editor.antt =====
-- uv_studio/editor: the commands that change the documents of a project.
pub mod TimelineCommands
