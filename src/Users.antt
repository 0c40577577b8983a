-- ===== src/Users.antt =====
-- frontend/src/pages/UsersPage: the administrator's list of accounts, and its forms.
pub mod CopyUserId
pub mod Form
pub mod TelegramId
pub mod Page
pub mod Safety
pub mod SignOut
pub mod StatusHistory
pub mod Timeline
pub mod Columns
pub mod VpnProfiles
