-- ===== src/Money/Share.antt =====
-- What `allocateMinor` promises of its shares.
mod Rows
mod Keys
pub mod Sum
pub mod Bounds
pub mod Unique
pub mod ByKey
