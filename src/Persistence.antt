-- ===== src/Persistence.antt =====
-- The tables of packages/persistence/src and the repositories over them. A table is the list of its
-- rows, in no particular order; a statement of SQL is a function from the table before it to the
-- table after it.
pub mod Queue
pub mod MoneyColumn
pub mod CostHistory
mod Tests
mod CostTests
