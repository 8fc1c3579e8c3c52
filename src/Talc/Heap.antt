-- ===== src/Talc/Heap.antt =====
-- src/talc.rs: the heap in memory, `TalcMeta`.
pub mod Memory
pub mod Chunks
pub mod Availability
pub mod Blocks
pub mod Claim
pub mod Linked
pub mod Index
pub mod Next
pub mod Toggle
pub mod Free
pub mod Inserts
pub mod Inserted
pub mod Removed
pub mod Taken
pub mod Search
pub mod Laid
pub mod Stores
pub mod Fits
pub mod Carved
pub mod Carving
pub mod Allocated
pub mod Ranges
pub mod Joins
pub mod Apart
pub mod Deallocated
pub mod Allocation
pub mod Claimed
