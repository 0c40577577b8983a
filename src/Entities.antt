-- ===== src/Entities.antt =====
-- frontend/src/entities: the data that the server sends, a module for each folder.
pub mod Users
pub mod Payments
pub mod TariffPlans
pub mod VpnAccess
