-- ===== src/Controller.antt =====
-- internal/controller: the reconcilers of the config objects, and the RBAC of the dashboard pod.
pub mod Condition
pub mod Binding
pub mod WidgetSchema
pub mod WidgetConfig
pub mod Reconciler
pub mod References
pub mod Rbac
