-- ===== src/Console/Auth.antt =====
-- The authentication of the console: apps/ghalla-ops/src/lib/auth.
pub mod AccessKey
pub mod Session
pub mod Guard
pub mod Gate
