-- ===== src/Services/Devices/Running.antt =====
-- start_device, stop_device, the resumption at startup, and the batch actions.
pub mod Unique
pub mod Status
pub mod Counts
use ghost_meter.Prelude.{
  ℕ, zero, suc, ◌+◌, String, Bool, true, false, not, ◌||◌, Option, none, some, List, [], ◌∷◌, map,
  contains, ◌==◌, nat_eq, string_eq, if◌then◌else◌,
}
use ghost_meter.Errors.{Result, ok, err, Error, conflict, raise_if, ◌>>=◌, ◌>>◌}
use ghost_meter.Table.{filter, write}
use ghost_meter.Protocols.Base.{RegisterInfo}
use ghost_meter.Services.Templates.{TemplateData, RegisterDefinition}
use ghost_meter.Services.Devices.{DeviceInstance, Database, Outcome, has_id, get_device_raw}
use ghost_meter.Services.Templates.{get_template}
use ghost_meter.Services.Devices.Creation.{delete_device}

-- What the service calls of the rest of the process, whose state is `W`. A call that may raise
-- gives its result beside the state that it leaves.
pub record Runtime (W : Type 0) : Type 0 where
  -- `protocol_manager.is_running`, and its calls by protocol
  pub is_running : W → Bool
  pub add_device : W → String → ℕ → ℕ → List RegisterInfo → W × Result (Unit {0})
  pub remove_device : W → String → ℕ → W × Result (Unit {0})
  pub set_device_meta : W → String → ℕ → String → W
  -- `simulation_engine`
  pub start_simulation : W → ℕ → W × Result (Unit {0})
  pub stop_simulation : W → ℕ → W × Result (Unit {0})
  -- `scenario_runner.stop`
  pub stop_scenario : W → ℕ → W × Result (Unit {0})
  -- publishing by MQTT: start every enabled configuration of a device, stop the device's, and
  -- resume all at startup; what a single configuration raises is logged
  pub start_publishing : W → DeviceInstance → String → W
  pub stop_publishing : W → ℕ → W × Result (Unit {0})
  pub resume_publishing : W → W
  -- `monitor_service.log_event`
  pub log_event : W → ℕ → String → String → W

module _ {R : Type 0} where
  register_info : RegisterDefinition R → RegisterInfo
  register_info reg = record {
    address = reg.address;
    function_code = reg.function_code;
    data_type = reg.data_type;
    byte_order = reg.byte_order;
    oid = reg.oid;
    name = some reg.name;
    unit = reg.unit;
  }

set_status : String → DeviceInstance → DeviceInstance
set_status status device = record device { status = status }

module _ {W : Type 0} ⦃runtime : Runtime W⦄ where
  -- A simulation that does not start is logged only.
  started_simulation : ℕ → W × Result (Unit {0}) → W × Result (Unit {0})
  started_simulation device_id (w, ok _) = ((runtime.start_simulation w device_id).0, ok tt)
  started_simulation device_id (w, err e) = (w, err e)

  -- Three stops whose exceptions are swallowed or logged.
  stop_all : W → ℕ → W
  stop_all w device_id =
      let published = (runtime.stop_publishing w device_id).0 in
      let stopped = (runtime.stop_scenario published device_id).0 in
      (runtime.stop_simulation stopped device_id).0

module _ {R W : Type 0} ⦃runtime : Runtime W⦄ where
  unfoldable pub register_device_runtime :
      W → DeviceInstance → TemplateData R → W × Result (Unit {0})
  unfolding register_info started_simulation
  register_device_runtime w device template =
      if runtime.is_running w
      then (let named =
            if template.protocol == "opcua" || template.protocol == "bacnet"
            then runtime.set_device_meta w template.protocol device.id device.name
            else w in
          started_simulation device.id (
            runtime.add_device named template.protocol device.id device.slave_id
              (map register_info template.registers)))
      else (w, ok tt)

  with_status : Database R W → ℕ → String → W → Database R W
  unfolding set_status
  with_status db device_id status w = record db {
    devices = write (has_id device_id) (set_status status) db.devices;
    world = w;
  }

  -- The end of start_device: the status is committed, and an event is logged.
  finish_start :
      Database R W
      → DeviceInstance
      → TemplateData R
      → W × Result (Unit {0})
      → Outcome R W (Unit {0})
  unfolding with_status
  finish_start db device template (w, err e) =
      (with_status db device.id "error" w, err (conflict "PROTOCOL_ERROR"))
  finish_start db device template (w, ok _) = (
    with_status db device.id "running" (
        runtime.log_event (runtime.start_publishing w device template.name) device.id device.name
          "device_start"),
    ok tt,
  )

  check_start : Database R W → ℕ → Result (DeviceInstance × TemplateData R)
  check_start db device_id = do
    device ← get_device_raw db.devices device_id
    raise_if (not (device.status == "stopped")) (conflict "INVALID_STATE_TRANSITION")
    template ← get_template db.templates device.template_id
    ok (device, template)

  start_with : Database R W → Result (DeviceInstance × TemplateData R) → Outcome R W (Unit {0})
  unfolding finish_start
  start_with db (err e) = (db, err e)
  start_with db (ok (device, template)) =
      finish_start db device template (register_device_runtime db.world device template)

  unfoldable pub start_device : Database R W → ℕ → Outcome R W (Unit {0})
  unfolding check_start start_with
  start_device db device_id = start_with db (check_start db device_id)

  unregister : Database R W → DeviceInstance → W → Result W
  unregister db device w =
      if runtime.is_running w
      then (do
        template ← get_template db.templates device.template_id
        ok (runtime.remove_device w template.protocol device.id).0)
      else ok w

  finish_stop : Database R W → DeviceInstance → W → Result W → Outcome R W (Unit {0})
  unfolding with_status
  finish_stop db device w (err e) = (record db { world = w }, err e)
  finish_stop db device w (ok w') = (
    with_status db device.id "stopped" (runtime.log_event w' device.id device.name "device_stop"),
    ok tt,
  )

  check_stop : Database R W → ℕ → Result DeviceInstance
  check_stop db device_id = do
    device ← get_device_raw db.devices device_id
    raise_if (device.status == "stopped") (conflict "INVALID_STATE_TRANSITION")
    ok device

  stop_with : Database R W → Result DeviceInstance → Outcome R W (Unit {0})
  unfolding stop_all unregister finish_stop
  stop_with db (err e) = (db, err e)
  stop_with db (ok device) =
      let w = stop_all db.world device.id in finish_stop db device w (unregister db device w)

  unfoldable pub stop_device : Database R W → ℕ → Outcome R W (Unit {0})
  unfolding check_stop stop_with
  stop_device db device_id = stop_with db (check_stop db device_id)

  resume_one : W × ℕ → DeviceInstance → Result (TemplateData R) → W × ℕ
  resume_one (w, resumed) device (err e) = (w, resumed)
  resume_one (w, resumed) device (ok template) =
      let (w', r) = register_device_runtime w device template in
      (w', elim r [ ok _ ↦ resumed + 1 | err _ ↦ resumed ])

  resume_each : Database R W → W × ℕ → List DeviceInstance → W × ℕ
  unfolding resume_one
  resume_each db state [] = state
  resume_each db state (device ∷ devices) =
      resume_each db (resume_one state device (get_template db.templates device.template_id))
        devices

  unfoldable pub resume_running_devices : Database R W → Database R W × ℕ
  unfolding resume_each
  resume_running_devices db =
      let (w, resumed) =
        resume_each db (db.world, 0) (filter (λ d. d.status == "running") db.devices) in
      (record db { world = runtime.resume_publishing w }, resumed)

-- BatchActionResult
pub record BatchActionResult : Type 0 where
  pub success_count : ℕ
  pub skipped_count : ℕ
  pub error_count : ℕ

-- `if device_ids:`, and the filter that stands in for no list.
pub selected : Option (List ℕ) → (DeviceInstance → Bool) → List DeviceInstance → List DeviceInstance
selected none default_filter devices = filter default_filter devices
selected (some []) default_filter devices = filter default_filter devices
selected (some (id ∷ ids)) default_filter devices = filter (λ d. contains d.id (id ∷ ids)) devices

no_counts : BatchActionResult
no_counts = record { success_count = 0; skipped_count = 0; error_count = 0 }

module _ {R W : Type 0} (skip_status : String)
    (action_fn : Database R W → ℕ → Outcome R W (Unit {0})) where
  counted : BatchActionResult → Outcome R W (Unit {0}) → Database R W × BatchActionResult
  counted n (db, ok _) = (db, record n { success_count = n.success_count + 1 })
  counted n (db, err e) = (db, record n { error_count = n.error_count + 1 })

  act : Database R W × BatchActionResult → DeviceInstance → Database R W × BatchActionResult
  unfolding counted
  act (db, n) device =
      if device.status == skip_status
      then (db, record n { skipped_count = n.skipped_count + 1 })
      else counted n (action_fn db device.id)

  -- The loop; the rows are distinct, so that no action changes the status of a later one.
  pub act_each :
      Database R W × BatchActionResult → List DeviceInstance → Database R W × BatchActionResult
  unfolding act
  act_each state [] = state
  act_each state (device ∷ devices) = act_each (act state device) devices

  -- `_batch_device_action`
  unfoldable pub batch_device_action :
      Database R W → Option (List ℕ) → (DeviceInstance → Bool) → Database R W × BatchActionResult
  unfolding act_each selected no_counts
  batch_device_action db device_ids default_filter =
      act_each (db, no_counts) (selected device_ids default_filter db.devices)

module _ {R W : Type 0} ⦃runtime : Runtime W⦄ where
  unfoldable pub batch_start_devices :
      Database R W → Option (List ℕ) → Database R W × BatchActionResult
  batch_start_devices db device_ids =
      batch_device_action "running" start_device db device_ids (λ d. d.status == "stopped")

  unfoldable pub batch_stop_devices :
      Database R W → Option (List ℕ) → Database R W × BatchActionResult
  batch_stop_devices db device_ids =
      batch_device_action "stopped" stop_device db device_ids (λ d. not (d.status == "stopped"))

module _ {R W : Type 0} where
  -- An empty list of ids selects every device.
  unfoldable pub batch_delete_devices : Database R W → List ℕ → Database R W × BatchActionResult
  batch_delete_devices db device_ids =
      batch_device_action "running" delete_device db (some device_ids) (λ d. true)
