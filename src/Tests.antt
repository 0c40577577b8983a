-- ===== src/Tests.antt =====
-- The theorems at concrete inputs.
pub mod Fixtures
pub mod History
pub mod Ui
pub mod Requests
pub mod Accounts
pub mod Plans
pub mod Payments
pub mod Vpn
pub mod Shell
pub mod Scripts
