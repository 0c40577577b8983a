-- ===== src/Ui.antt =====
-- frontend/src/shared/ui: the components that keep state.
pub mod DataTable
pub mod FieldSelect
pub mod Button
pub mod TextField
pub mod Modal
pub mod Confirmation
