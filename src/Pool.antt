-- ===== src/Pool.antt =====
-- src/pool.rs: blocks of memory in size classes, one control word for each block.
pub mod State
pub mod Layouts
pub mod Geometry
pub mod Placed
pub mod Search
pub mod Blocks
pub mod Recovery
pub mod Transfers
pub mod Claims
