-- ===== src/Root.antt =====
-- src/header.rs, `Root`: the participants of a region, one word for each of 63 slots.
pub mod Ops
pub mod Growth
pub mod Joins
pub mod Stale
