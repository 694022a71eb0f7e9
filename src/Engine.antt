-- ===== src/Engine.antt =====
-- The profit engine, packages/core/src: its inputs, the terms of a margin one by one, and
-- `computeOrderProfit`, which puts them together.
pub mod Input
pub mod Diagnostics
pub mod Recognition
pub mod Fee
pub mod Rules
pub mod Gateway
pub mod Cod
pub mod Shipping
pub mod Revenue
pub mod Cogs
pub mod Confidence
pub mod Reversal
pub mod Lines
pub mod BusinessDate
pub mod Normalize
pub mod Compute
mod Samples
mod Expected
mod Tests
mod PartTests
mod RuleTests
mod NormalizeTests
