-- ===== src/Mem.antt =====
-- src/mem.rs: layouts placed one after the other in a mapping.
pub mod Map
pub mod Build
pub mod Places
