-- ===== src/Actions.antt =====
-- crates/core/src/actions_engine: the actions that the screen offers.
pub mod Catalog
pub mod Suggestions
pub mod Invocation
pub mod Snippets
pub mod Enablement
pub mod Ranking
pub mod Engine
mod Examples
