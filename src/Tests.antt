-- ===== src/Tests.antt =====
-- The theorems at concrete inputs, and runs of the model on data that can be followed in the source.
mod WriteTracker
mod Faults
mod Anomalies
mod Scenarios
mod Templates
mod Encoding
mod Steps
mod Stored
mod Catalog
mod Modbus
mod Schedules
mod Configurations
mod Engine
mod Monitor
mod Loop
mod Devices
mod Mqtt
mod Profiles
