-- ===== src/Core/Safety.antt =====
-- The safety of one node over an epoch (`run` in consensus/src/core.rs): what it commits, what it
-- votes for and what moves it, whatever messages and timer events it handles.
pub mod Commits
pub mod Votes
pub mod Stale
pub mod Heights
pub mod Proposed
pub mod Walk
pub mod Chain
