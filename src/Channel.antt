-- ===== src/Channel.antt =====
-- src/channel.rs: the two ends of a duplex channel and the words that say who owns them.
pub mod Words
pub mod Roles
pub mod Release
pub mod Ports
pub mod Drops
pub mod Geometry
pub mod Laps
