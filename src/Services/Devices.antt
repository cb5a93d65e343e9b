-- ===== src/Services/Devices.antt =====
-- backend/app/services/device_service.py: devices in the database and their status. The rows are
-- here; create, batch, start and stop are in the child modules. What the service calls of the
-- adapters, the engine and the other services is the record Runtime.
pub mod Creation
pub mod Running
pub mod Evolution
pub mod Calls
use ghost_meter.Prelude.{
  ℕ, ◌+◌, String, Bool, not, ◌&&◌, Option, none, some, List, [], ◌∷◌, ltb, ◌==◌, nat_eq, string_eq,
  if◌then◌else◌,
}
use ghost_meter.Dict.{Dict, get}
use ghost_meter.Errors.{
  Result, ok, err, Error, runtime_error, key_error, validation, not_found, conflict,
}
use ghost_meter.Table.{count, find, write, remove}
use ghost_meter.Services.Configurations.{SimulationConfig}
use ghost_meter.Services.Templates.{TemplateData}
use ghost_meter.Services.Profiles.{SimulationProfile}

pub record DeviceInstance : Type 0 where
  pub id : ℕ
  pub template_id : ℕ
  pub name : String
  pub slave_id : ℕ
  pub status : String
  pub port : ℕ
  pub description : Option String

-- The tables that the service reads and writes, and the state `W` of the rest of the process.
-- `next_id` is a fresh identifier.
pub record Database (R W : Type 0) : Type 0 where
  pub templates : Dict ℕ (TemplateData R)
  pub profiles : List (SimulationProfile R)
  pub simulation_configs : List (SimulationConfig R)
  pub devices : List DeviceInstance
  pub next_id : ℕ
  pub world : W

-- A call leaves its state behind also where it raises.
abbrev pub Outcome : Type 0 → Type 0 → Type 0 → Type 0
Outcome R W A = Database R W × Result A

pub record Settings : Type 0 where
  pub modbus_port : ℕ
  pub snmp_port : ℕ
  pub opcua_port : ℕ
  pub bacnet_port : ℕ
  pub mqtt_nominal_port : ℕ

-- `_resolve_port`
unfoldable pub resolve_port : Settings → String → Result ℕ
resolve_port settings protocol =
    if protocol == "modbus_tcp"
    then ok settings.modbus_port
    else if protocol == "snmp"
    then ok settings.snmp_port
    else if protocol == "opcua"
    then ok settings.opcua_port
    else if protocol == "bacnet"
    then ok settings.bacnet_port
    else if protocol == "mqtt"
    then ok settings.mqtt_nominal_port
    else err key_error

-- `_PROTOCOL_SLAVE_ID_MAX`
abbrev slave_id_max : String → Option ℕ
slave_id_max protocol =
    if protocol == "modbus_tcp" then some 247 else if protocol == "bacnet" then some 247 else none

below_ceiling : Option ℕ → ℕ → Result (Unit {0})
below_ceiling none slave_id = ok tt
below_ceiling (some limit) slave_id = if ltb limit slave_id then err validation else ok tt

-- `_validate_slave_id_ceiling`
unfoldable pub validate_slave_id_ceiling : String → ℕ → Result (Unit {0})
unfolding below_ceiling
validate_slave_id_ceiling protocol slave_id = below_ceiling (slave_id_max protocol) slave_id

unfoldable pub has_id : ℕ → DeviceInstance → Bool
has_id device_id device = device.id == device_id

-- `DeviceInstance.slave_id == slave_id, DeviceInstance.port == port`
unfoldable pub holds : ℕ → ℕ → DeviceInstance → Bool
holds slave_id port device = device.slave_id == slave_id && device.port == port

-- `exclude_device_id`
unfoldable pub holds_other : ℕ → ℕ → Option ℕ → DeviceInstance → Bool
unfolding holds has_id
holds_other slave_id port none device = holds slave_id port device
holds_other slave_id port (some device_id) device =
    holds slave_id port device && not (has_id device_id device)

-- `_check_slave_id_available`; `scalar_one_or_none` raises where two rows are found.
unfoldable pub check_slave_id_available : List DeviceInstance → ℕ → ℕ → Option ℕ → Result (Unit {0})
unfolding holds_other
check_slave_id_available devices slave_id port exclude =
    let n = count (holds_other slave_id port exclude) devices in
    if n == 0 then ok tt else if n == 1 then err validation else err runtime_error

found_device : Option DeviceInstance → Result DeviceInstance
found_device none = err (not_found "DEVICE_NOT_FOUND")
found_device (some device) = ok device

-- `_get_device_raw`
unfoldable pub get_device_raw : List DeviceInstance → ℕ → Result DeviceInstance
unfolding found_device
get_device_raw devices device_id = found_device (find (has_id device_id) devices)
