-- ===== src/Shell.antt =====
-- frontend/src/widgets/AppShell and frontend/src/app/providers/withTheme: what stands around the pages.
pub mod Theme
pub mod Menu
pub mod Header
