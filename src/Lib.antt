-- ===== src/Lib.antt =====
-- Ghalla computes what an order of an online store earned. This library models the profit engine
-- of packages/core, the records of packages/contracts that it reads, the billing rules of
-- packages/billing, the queue of events and the history of costs of packages/persistence, and the
-- authentication, the health of stores and the recurring revenue of apps/ghalla-ops.
--
-- Parts of the program, and where they are modelled:
--   Base          JavaScript's values: integers, strings as lists of UTF-16 code units, maps in
--                 insertion order, exceptions as values, and the rounding of doubles.
--   Money         packages/core/src/money.ts and packages/contracts/src/money.ts: the kernel of
--                 exact money (Money/Kernel), allocateMinor (Money/Allocate) and the reading of
--                 decimal text (Money/Decimal).
--   Contracts     packages/contracts/src: enums.ts, order.ts, order-item.ts, payment.ts,
--                 shipment.ts, reversal.ts and time.ts.
--   Engine        packages/core/src/engine, a module for each file: Recognition, Fee, Rules (the
--                 choice of a rule that gateway.ts, cod.ts and shipping.ts share), Gateway, Cod,
--                 Shipping, Revenue, Cogs, Reversal, Lines (allocate-lines.ts), Confidence,
--                 BusinessDate, Normalize, Diagnostics; and Compute for compute-order-profit.ts.
--   Billing       packages/billing/src: Plans (plans.ts), Subscription (subscription.ts), Access
--                 (access.ts and entitlements.ts), Catalog (plan-catalog.ts and pricing.ts) and Usage
--                 (usage.ts).
--   Persistence   packages/persistence/src: Queue (repositories/webhook-event.repository.ts),
--                 CostHistory (repositories/cost-history.repository.ts) and MoneyColumn (db/money.ts).
--   Console       apps/ghalla-ops/src/lib: RateLimit (auth/rate-limit.ts), Auth (auth/access-key.ts,
--                 session.ts, guard.ts and gate.ts), Stores (queries/store-health.ts and stores.ts),
--                 Alerts (queries/alerts.ts and portal/alert-acks.ts), Revenue
--                 (queries/subscriptions.ts) and Presentation (ui/presentation.ts).
-- The engine is a pure function: normalizeAndValidate refuses an input or sorts it, the terms of the
-- margin are computed one by one, allocateOrderCostsToLines pushes them down to the lines, and
-- computeOrderProfit turns what was thrown into a rejection. The billing rules are pure functions
-- from a subscription and an event to the next subscription; the cache of counts is passed along. The
-- console reads subscriptions through the billing rules, and what it says of a store follows from the
-- facts that are known of it. A table is the list of its rows, and a statement of SQL is a function
-- from the table before it to the table after it.
--
-- How the code is rendered:
--   Numbers. The code checks, after each step, that a money value is a safe integer within the range
--   of MAX_MINOR, and throws if it is not. Below 2^53 the operations of doubles are exact, so such
--   values are integers here and each check is written out. BigInt is the natural numbers. The one
--   product that reversal.ts leaves unchecked is computed with the rounding of IEEE doubles
--   (Base/Double); its running totals by line are taken to stay below 2^53.
--   Exceptions. A function that may throw returns a Result, with one constructor of Error for each
--   class of error; what JavaScript evaluates later is not evaluated after a throw.
--   Loops. A loop over a list is structural recursion. The loop of spreadCappedByCogs recurs on what
--   remains, which each round makes smaller, so it needs no fuel.
--   Sorting. Array.prototype.sort is a stable insertion sort by the comparator of the code.
--   Results of billing. The text of a reason is left out of its outcomes.
--   Instants. The engine and billing compare instants as strings, as the code does; where the code
--   converts them to a Date, in Persistence and Console, they are milliseconds since the epoch.
--   Foreign code. The rows that the query of claim selects (DueQuery), the order that a query gives to
--   rows, the text of a double, base64, HMAC and JSON (Platform) and the URL parser (UrlParser) are
--   parameters with the hypotheses that the code relies on.
--   Time zones. The conversion of an instant to the parts of a local date, which Intl does, is the
--   parameter ZoneConversion.
--
-- Not modelled: values of another JavaScript type than declared (null objects, fractions, NaN), the
-- conversion of floats to money, fields that no computation reads, the seeding of a subscription,
-- percentages that are computed with doubles, sorting by localeCompare, the texts of messages, the
-- other tables of the persistence and the queries that only read them, the schemas, the pages of the
-- console and the platform application. Caps are compared in twelfths of an order a month, so that the
-- cap of a year is not divided.
pub mod Base
pub mod Billing
pub mod Console
pub mod Contracts
pub mod Engine
pub mod Money
pub mod Persistence
