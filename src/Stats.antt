-- ===== src/Stats.antt =====
-- stats/stats.go: usage statistics and the billing cycle.
pub mod Data
pub mod Calendar
pub mod Cycle
pub mod Record
pub mod Rolling
pub mod Billing
pub mod Totals
pub mod Spend
