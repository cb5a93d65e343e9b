-- ===== src/Services.antt =====
-- backend/app/services: the operations behind the REST routes.
pub mod Anomalies
pub mod Configurations
pub mod Devices
pub mod Monitor
pub mod Profiles
pub mod ScenarioRunner
pub mod Templates
pub mod Scenarios
pub mod Mqtt
