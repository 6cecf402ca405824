-- ===== src/Tests.antt =====
-- Examples of the theorems at a small committee.
mod Toy
mod Quorums
mod Node
mod Mempool
mod Store
mod Pool
mod Sync
mod Epochs
mod Driver
mod Asking
mod Leaders
mod Files
mod Client
mod Passed
mod Timer
mod Boot
mod Agreement
