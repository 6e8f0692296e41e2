-- ===== src/Feeder.antt =====
-- LocalFeeder/FeederSimulator.py: the class `FeederSimulator` over OpenDSS.
pub mod Engine
pub mod Sim
pub mod Run
pub mod Matrix
pub mod Enabled
pub mod States
pub mod Load
pub mod Voltages
pub mod Power
pub mod Inverter
pub mod Pv
pub mod Incidence
mod Tests
