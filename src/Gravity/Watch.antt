-- ===== src/Gravity/Watch.antt =====
-- src/pyrxd/gravity/watch: the alert-only watchtower.
pub mod Decide
pub mod Alerts
pub mod Reconciler
