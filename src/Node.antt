-- ===== src/Node.antt =====
-- The node's binary and its client (node/src).
pub mod Client
pub mod Files
pub mod Boot
pub mod Deploy
