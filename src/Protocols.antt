-- ===== src/Protocols.antt =====
-- backend/app/protocols: the adapters that serve register values to clients.
pub mod Base
pub mod Encoding
pub mod Modbus
pub mod Manager
