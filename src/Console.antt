-- ===== src/Console.antt =====
-- The operations console: apps/ghalla-ops/src/lib. Milliseconds since the epoch are natural numbers.
pub mod Auth
pub mod RateLimit
pub mod Revenue
pub mod Stores
pub mod Alerts
pub mod Presentation
mod Tests
mod StoreTests
