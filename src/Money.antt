-- ===== src/Money.antt =====
-- Money as the program computes with it: `isMinor`, `toMinor` and `toBps` of
-- packages/contracts/src/money.ts, the decimal texts that it reads, and the kernel of packages/core/src/money.ts.
-- A `number` that has been checked to be a safe integer is an integer here, so its arithmetic is
-- exact; there is no fractional value, no NaN and no negative zero to refuse.
mod Kernel
mod Allocate
pub mod Decimal
pub mod Exact
pub mod Rounding
pub mod Share
mod Tests
unfoldable pub use Kernel.*
unfoldable pub use Allocate.*
