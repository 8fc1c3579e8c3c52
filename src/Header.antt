-- ===== src/Header.antt =====
-- src/header.rs, `RcHeader`: the record that stands before every shared layout, and its admission.
pub mod Fields
pub mod Membership
pub mod Admission
pub mod Closing
pub mod Admits
