-- ===== src/History.antt =====
-- The windows that show a history by month: frontend/src/shared/ui/MonthlyHistory and the three
-- windows that feed it.
pub mod Monthly
pub mod Grouping
pub mod Charges
pub mod TopUps
pub mod BillingRuns
pub mod Labels
pub mod Conservation
pub mod Windows
