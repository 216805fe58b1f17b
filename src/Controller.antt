-- ===== src/Controller.antt =====
-- internal/controller/packingprofile_controller.go: the reconciler of gated pods. Its parts are the
-- modules below; Controller/Reconcile.antt puts them together.
pub mod Gates
pub mod Conditions
pub mod Status
pub mod Templates
pub mod Sync
pub mod Reconcile
pub mod Records
