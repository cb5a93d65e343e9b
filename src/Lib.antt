-- ===== src/Lib.antt =====
-- GhostMeter simulates field devices: each device answers Modbus, SNMP, OPC UA, BACnet or MQTT
-- clients with generated values, and faults and anomalies can be set on it. This library models
-- the backend's own logic, in the files under backend/app. The parts, each with its module:
--
--   backend/app/simulation/write_tracker.py: Simulation.WriteTracker
--     What clients tried to write, on a bounded deque (Deque) per device.
--   backend/app/simulation/fault_simulator.py: Simulation.FaultSimulator
--     The fault of a device, and the clamps of its parameters, which the adapters read.
--   backend/app/simulation/anomaly_injector.py: Simulation.AnomalyInjector
--     Real-time and scheduled anomalies, which the engine applies to each value.
--   backend/app/simulation/engine.py: Simulation.Engine
--     The tasks of the devices and their restarts after a crash; the loop of one task is
--     Simulation.Engine.Loop, where each round has its moment, its draws and its dice as a Moment.
--   backend/app/simulation/data_generator.py: Simulation.DataGenerator
--     The value of a register by the mode of its configuration.
--   backend/app/simulation/expression_parser.py: Simulation.Expressions
--     Arithmetic over other registers' values; the tree that Python parses is Node.
--   backend/app/services/scenario_runner.py: Services.ScenarioRunner
--     A scenario's steps in time, which inject and remove anomalies.
--   backend/app/services/scenario_service.py: Services.Scenarios
--     The checks on the steps that the runner is given, and in Services.Scenarios.Stored the
--     scenarios in the database.
--   backend/app/services/template_service.py: Services.Templates
--     The address check, and what clone and export copy; in Services.Templates.Stored the
--     templates in the database.
--   backend/app/services/anomaly_service.py: Services.Anomalies
--     The schedules that the engine loads into the injector, in the database.
--   backend/app/services/simulation_service.py: Services.Configurations
--     How the registers of a device are simulated, in the database.
--   backend/app/services/simulation_profile_service.py: Services.Profiles
--     Reusable configurations of a template, one of which may be its default.
--   backend/app/services/device_service.py: Services.Devices
--     Devices in the database and their status: Creation for create, batch create, update and
--     delete, Running for start, stop and the batches, Calls for any list of these. A call is a
--     function to the database that it leaves and its result, since a call that raises may have
--     committed. What a call does to adapters, tasks and publishing is the record Runtime.
--   backend/app/services/monitor_service.py: Services.Monitor
--     The event log that the user interface shows.
--   backend/app/services/mqtt_service.py: Services.Mqtt
--     Brokers, what each device publishes to each, and the resumption of publishing, which calls
--     the adapter through the record Publisher.
--   backend/app/protocols/manager.py: Protocols.Manager
--     The adapters by protocol, and the calls that it hands on to them.
--   backend/app/protocols/modbus_tcp.py: Protocols.Encoding and Protocols.Modbus
--     A value as 16-bit words; the registry of slaves and the server's callback, which reads the
--     fault simulator and records writes in the tracker.
--   backend/app/protocols/base.py: Protocols.Base
--     Counters; add_device and remove_device of the base class are in Protocols.Modbus.
--
-- Definitions have the source's names, without a leading underscore: record_event is
-- WriteTracker.record, and create_stored of Services.Templates.Stored is create_template with the
-- table, where create_template is the part of it that does not write. A component's proofs are in
-- its child modules, and Tests holds the theorems at concrete inputs and runs of the model.
--
-- Dict is Python's dict as an association list in insertion order. Errors holds the exceptions
-- that the code raises, as values. Intervals is the group, sort and compare loop that the address
-- check and the step check share. Prelude.Int is the integers over the native numbers. A table of
-- the database is a list of rows; Table has the queries and writes, and counts rows.
--
-- What the code takes from elsewhere is a parameter. Floats is a record of float operations, and
-- the laws of orders that some theorems need are a second record; Floats.Exact meets both by
-- whole numbers. The datastores of pymodbus are the record Pymodbus of Protocols.Modbus. Times and
-- random numbers are arguments of the operations that read them, and so are the parser, the
-- pattern and the printing of floats that expressions use (Python). Device identifiers are numbers in
-- place of UUIDs. A round of an asyncio task, the wake-up of a sleeping task and a callback are each
-- one call of a function, so that any interleaving is a sequence of calls.
--
-- Every function here is structural, so there is no fuel. The bounds are the source's: 50 write
-- events per device, a delay of at most 10000 milliseconds, five restarts in a
-- row, five rounds in a row with an error, 50 devices in a batch.
--
-- Not modelled: the routes, the sessions of the database, the logging, the system service, the
-- listings, and the adapters but for Modbus, which are mostly calls of their libraries. A call of a
-- service is one transaction here, but for the commits in the middle of the device calls; a
-- constraint that a flush or a commit meets before the last one is a step of its own. That another
-- call removes a device's values is seen at the start of a round of its task, not within one.
pub mod Deque
pub mod Dict
pub mod Errors
pub mod Floats
pub mod Intervals
pub mod Prelude
pub mod Protocols
pub mod Services
pub mod Simulation
pub mod Table
pub mod Tests
