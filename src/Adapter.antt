-- ===== src/Adapter.antt =====
-- lindistflow_federate/adapter.py: buses and branches from the feeder's topology and measurements.
pub mod Info
pub mod Extract
pub mod Measurements
pub mod Wired
pub mod Numbered
pub mod Tests
pub mod Injection
