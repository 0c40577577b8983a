-- ===== src/TariffPlans.antt =====
-- frontend/src/entities/tariffPlan and frontend/src/pages/TariffPlansPage: the calendar of the plans,
-- the charge of a day, and the page that edits the schedule.
pub mod Calendar
pub mod Charge
pub mod Schedule
pub mod Page
pub mod Form
pub mod Card
