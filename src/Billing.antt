-- ===== src/Billing.antt =====
-- Plans, subscriptions, access and usage: packages/billing/src.
pub mod Plans
pub mod Subscription
pub mod Access
pub mod Catalog
pub mod Usage
mod Tests
mod CatalogTests
