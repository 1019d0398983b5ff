-- ===== src/Operator.antt =====
-- operator/internal/controller: the operator that keeps a document in a Secret or a ConfigMap.
pub mod Reconcile
pub mod Intervals
pub mod Synced
pub mod Watches
mod Tests
