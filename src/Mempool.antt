-- ===== src/Mempool.antt =====
-- mempool/src: what collects the transactions of clients into payloads, keeps the payloads of all
-- nodes, and gives the consensus their digests.
pub mod Payload
pub mod Order
pub mod Bounds
pub mod Error
pub mod Config
pub mod State
pub mod Handlers
pub mod Loop
pub mod Triple
pub mod Queues
pub mod Handled
pub mod Answers
pub mod Requests
pub mod Capacity
pub mod Synchronizer
pub mod System
pub mod Loopback
pub mod Entries
pub mod Start
pub mod Pending
pub mod Asking
