-- ===== src/Tests/Devices.antt =====
-- Meters on one Modbus server, and a process that remembers only which devices are registered.
use ghost_meter.Prelude.{
  ℕ, ◌≡◌, refl, true, String, none, some, List, [], ◌∷◌, contains, not, arith, nat_eq, string_eq,
  if◌then◌else◌, ◌==◌, ==_iff,
}
use ghost_meter.Prelude.Int.{ℤ}
use ghost_meter.Errors.{ok, err, runtime_error, not_found}
use ghost_meter.Table.{count, find, filter}
use ghost_meter.Services.Templates.{TemplateData}
use ghost_meter.Services.Devices.{DeviceInstance, Database, Settings, has_id, holds}
use ghost_meter.Services.Devices.Creation.{
  DeviceCreate, DeviceBatchCreate, create_device, batch_create_devices,
}
use ghost_meter.Services.Devices.Creation.Unique.{Unique}
use ghost_meter.Services.Devices.Creation.Batch.{Made, batch_create_devices-Made}
use ghost_meter.Services.Devices.Running.{Runtime, batch_device_action, start_device, selected}
use ghost_meter.Services.Devices.Running.Counts.{Adds, results_of, batch_device_action-Adds}
use ghost_meter.Services.Devices.Evolution.{batch_create, delete, start, Evolves, row}
use ghost_meter.Services.Devices.Calls.{
  AnyCall, single, batch_start, batch_stop, perform, perform_any, perform_all,
}
use ghost_meter.Services.Devices.Calls.Unique.{perform_all-Unique}
use ghost_meter.Services.Devices.Calls.Status.{perform-Evolves}
use ghost_meter.Services.Devices.{
  get_device_raw, validate_slave_id_ceiling, resolve_port, check_slave_id_available, holds_other,
}
use ghost_meter.Services.Templates.{get_template}
use ghost_meter.Services.Devices.Creation.{delete_device}
use ghost_meter.Services.Devices.Running.{
  batch_stop_devices, batch_start_devices, register_device_runtime, stop_device,
}
use ghost_meter.Dict.{get}
use ghost_meter.Services.Profiles.{get_default_profile, apply_profile_to_device, get_profile}
use ghost_meter.Table.{remove, write}

instance abbrev process : Runtime (List ℕ)
process = record {
  is_running = λ w. true;
  add_device = λ w protocol device_id slave_id registers.
      if contains device_id w then (w, err runtime_error) else (device_id ∷ w, ok tt);
  remove_device = λ w protocol device_id. (filter (λ i. not (i == device_id)) w, ok tt);
  set_device_meta = λ w protocol device_id name. w;
  start_simulation = λ w device_id. (w, ok tt);
  stop_simulation = λ w device_id. (w, ok tt);
  stop_scenario = λ w device_id. (w, ok tt);
  start_publishing = λ w device name. w;
  stop_publishing = λ w device_id. (w, err runtime_error);
  resume_publishing = λ w. w;
  log_event = λ w device_id name event. w;
}

abbrev ports : Settings
ports = record {
  modbus_port = 502;
  snmp_port = 161;
  opcua_port = 4840;
  bacnet_port = 47808;
  mqtt_nominal_port = 1883;
}

abbrev meter_template : TemplateData ℤ
meter_template = record {
  name = "meter";
  protocol = "modbus_tcp";
  description = none;
  registers = [];
}

-- No device yet.
abbrev no_devices : Database ℤ (List ℕ)
no_devices = record {
  templates = (7, meter_template) ∷ [];
  profiles = [];
  simulation_configs = [];
  devices = [];
  next_id = 0;
  world = [];
}

abbrev meter : String → DeviceInstance
meter status = record {
  id = 0;
  template_id = 7;
  name = "meter";
  slave_id = 1;
  status = status;
  port = 502;
  description = none;
}

abbrev one_meter : Database ℤ (List ℕ)
one_meter = record no_devices { devices = meter "stopped" ∷ []; next_id = 1 }

abbrev digits : ℕ → String
digits n = "1"

abbrev chars : String → ℕ
chars s = 1

no_devices-Unique : Unique no_devices
unfolding count
no_devices-Unique = record {
  one_slave = λ s p. omega arith;
  one_id = λ i. omega arith;
  fresh = λ i above. refl;
}

one_meter-Unique : Unique one_meter
unfolding count holds has_id
one_meter-Unique = record {
  one_slave = λ s p. ground arith;
  one_id = λ i. ground arith;
  fresh = λ i above. ground (arith, ==_iff 0 i);
}

abbrev slaves : ℕ → ℕ → DeviceBatchCreate
slaves low high = record {
  template_id = 7;
  slave_id_start = low;
  slave_id_end = high;
  name_prefix = none;
  description = none;
  profile_id = none;
}

abbrev calls : List AnyCall
calls =
    single (batch_create (slaves 3 5))
    ∷ (batch_start none
        ∷ (single (delete 1) ∷ (batch_stop (some (1 ∷ [])) ∷ (single (delete 1) ∷ []))))

perform_all-Unique_example : Unique (perform_all digits chars ports no_devices calls)
perform_all-Unique_example =
    perform_all-Unique digits chars ports no_devices calls no_devices-Unique

-- The running device is not deleted; after it is stopped, it is.
ids_after :
    count (λ d. d.status == "running") (perform_all digits chars ports no_devices calls).devices ≡ 2
unfolding delete_device get_device_raw find batch_stop_devices batch_device_action filter
    batch_start_devices batch_create_devices get_template get validate_slave_id_ceiling resolve_port
    check_slave_id_available get_default_profile start_device register_device_runtime perform
    perform_any create_device has_id holds holds_other apply_profile_to_device get_profile remove
    write count stop_device perform_all
ids_after = refl

found_meter : row 0 one_meter ≡ some (meter "stopped")
unfolding find has_id
found_meter = refl

perform-Evolves_example :
    Evolves 0 (meter "stopped") (start 0) (row 0 (perform digits chars ports one_meter (start 0)))
perform-Evolves_example =
    perform-Evolves digits chars ports one_meter (start 0) 0 (meter "stopped") one_meter-Unique
      found_meter

is_started : row 0 (perform digits chars ports one_meter (start 0)) ≡ some (meter "running")
unfolding delete_device get_device_raw find batch_stop_devices batch_device_action filter
    batch_start_devices batch_create_devices get_template get validate_slave_id_ceiling resolve_port
    check_slave_id_available get_default_profile start_device register_device_runtime perform
    perform_any create_device has_id holds holds_other apply_profile_to_device get_profile remove
    write count stop_device
is_started = refl

-- A process that has the device already: its start fails, and it is left in error.
is_in_error :
    row 0 (perform digits chars ports (record one_meter { world = 0 ∷ [] }) (start 0))
    ≡ some (meter "error")
unfolding delete_device get_device_raw find batch_stop_devices batch_device_action filter
    batch_start_devices batch_create_devices get_template get validate_slave_id_ceiling resolve_port
    check_slave_id_available get_default_profile start_device register_device_runtime perform
    perform_any create_device has_id holds holds_other apply_profile_to_device get_profile remove
    write count stop_device
is_in_error = refl

batch_create_devices-Made_example :
    Made (slaves 1 2) one_meter (batch_create_devices digits chars ports one_meter (slaves 1 2))
batch_create_devices-Made_example =
    batch_create_devices-Made digits chars ports one_meter (slaves 1 2)

batch_device_action-Adds_example :
    Adds "running"
      (selected none (λ d. d.status == "stopped") one_meter.devices)
      (results_of "running" start_device one_meter
        (selected none (λ d. d.status == "stopped") one_meter.devices))
      (record { success_count = 0; skipped_count = 0; error_count = 0 })
      (batch_device_action "running" start_device one_meter none (λ d. d.status == "stopped")).1
batch_device_action-Adds_example =
    batch_device_action-Adds "running" start_device one_meter none (λ d. d.status == "stopped")

abbrev unknown_profile : DeviceCreate
unknown_profile = record {
  template_id = 7;
  name = "meter";
  slave_id = 1;
  description = none;
  profile_id = some (some 9);
}

-- The request fails, and the device is there.
leaves_device :
    ((create_device ports no_devices unknown_profile).1 ≡ err (not_found "PROFILE_NOT_FOUND"))
    × ((create_device ports no_devices unknown_profile).0.devices ≡ meter "stopped" ∷ [])
unfolding delete_device get_device_raw find batch_stop_devices batch_device_action filter
    batch_start_devices batch_create_devices get_template get validate_slave_id_ceiling resolve_port
    check_slave_id_available get_default_profile start_device register_device_runtime perform
    perform_any create_device has_id holds holds_other apply_profile_to_device get_profile remove
    write count stop_device
leaves_device = (refl, refl)
