-- ===== src/Ops.antt =====
-- The operations tools that run on the host.
pub mod Alerts
