-- ===== src/Simulation.antt =====
-- backend/app/simulation: what the devices report, and what disturbs it.
pub mod WriteTracker
pub mod AnomalyInjector
pub mod Engine
pub mod FaultSimulator
pub mod Expressions
pub mod DataGenerator
