-- ===== src/Dashboard.antt =====
-- modules/dashboard: the health monitor of the cluster API, and lists over several namespaces.
pub mod HealthMonitor
pub mod Paging
