-- ===== src/Contracts.antt =====
-- The canonical types of packages/contracts/src: enumerations and entities.
-- Branded strings (ids, slugs, currency codes, instants) are texts.
pub mod Enums
pub mod Canonical
pub mod Time
