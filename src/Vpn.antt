-- ===== src/Vpn.antt =====
-- frontend/src/pages/OverviewPage/components/VpnAccessPanel: the connections of an account.
pub mod CopyButton
pub mod Clipboard
pub mod Tabs
pub mod Connections
pub mod Panel
