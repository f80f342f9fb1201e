-- ===== src/Anomalies.antt =====
-- Anomaly detection (app/anomalies): the issues and the conditions that wait to become one.
pub mod Issues
pub mod Scan
pub mod Policies
pub mod Samples
