-- ===== src/Core.antt =====
-- consensus/src/core.rs: one consensus node. The modules below are the state and the effects, then
-- the handlers from those that call no other up to the event loop, then the proofs.
pub mod State
pub mod Round
pub mod Chain
pub mod Calls
pub mod Output
pub mod Vote
pub mod Coin
pub mod Spb
pub mod Prepare
pub mod Fallback
pub mod Opt
pub mod Loop
pub mod Start
pub mod Epochs
pub mod Timer
pub mod Preserve
pub mod Safety
