-- ===== src/SafeMode.antt =====
-- crates/core/src/safe_mode.rs: the classification of SQL text and the guard that asks for a
-- confirmation. The children prove what `Scan`, `Assess` and `Guard` do.
pub mod Scan
pub mod Assess
pub mod Guard
mod Examples
