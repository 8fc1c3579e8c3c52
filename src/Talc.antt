-- ===== src/Talc.antt =====
-- src/talc.rs
pub mod Mutation
pub mod Guards
pub mod Geometry
pub mod Bins
pub mod Auto
pub mod Heap
