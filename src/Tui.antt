-- ===== src/Tui.antt =====
-- crates/tui/src: the state of the terminal program, by its parts.
pub mod Wizard
pub mod Editor
pub mod Pagination
pub mod Session
