-- ===== src/Session.antt =====
-- src/session.rs: a directory and a heap in one mapping.
pub mod Parts
pub mod Within
