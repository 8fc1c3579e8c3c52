-- ===== src/Directory.antt =====
-- src/dir.rs
pub mod Memory
pub mod Lookup
pub mod Transaction
pub mod Create
pub mod Settle
pub mod Recover
mod Scan
mod Enter
mod Arms
mod Crash
mod Throughout
pub mod Creation
mod CreateRuns
mod CreateStart
pub mod CreateCrash
pub mod Lifetimes
pub mod RemoveArms
pub mod RemoveCrash
pub mod Remove
pub mod Grow
