-- ===== src/Queue.antt =====
-- src/queue.rs: the bounded queue in shared memory, that both directions of a Channel use.
pub mod Control
pub mod Memory
pub mod Ops
pub mod Cursors
pub mod Invariant
pub mod Reserve
pub mod ClaimRun
pub mod Take
pub mod Authority
pub mod Ends
pub mod Contents
pub mod Fifo
pub mod Quiet
pub mod Sends
pub mod Receives
pub mod Refine
pub mod Repair
pub mod RepairRun
