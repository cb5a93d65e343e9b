-- ===== src/Services/Devices/Calls/Unique.antt =====
-- No call of the service makes two devices share an id, or a slave id on one port.
use ghost_meter.Prelude.{ℕ, String, true, not, some, ◌==◌, string_eq, List, [], ◌∷◌}
use ghost_meter.Services.Devices.{Database, Settings}
use ghost_meter.Services.Devices.Creation.{delete_device}
use ghost_meter.Services.Devices.Creation.Updates.{update_device-Unique}
use ghost_meter.Services.Devices.Creation.Unique.{
  Unique, create_device-Unique, batch_create_devices-Unique, delete_device-Unique,
}
use ghost_meter.Services.Devices.Running.{
  Runtime, start_device, stop_device, resume_running_devices, batch_start_devices,
  batch_stop_devices, batch_delete_devices,
}
use ghost_meter.Services.Devices.Running.Unique.{
  start_device-Unique, stop_device-Unique, batch_device_action-keeps,
}
use ghost_meter.Services.Devices.Evolution.{Call, create, batch_create, update, delete, start, stop}
use ghost_meter.Services.Devices.Calls.{
  AnyCall, single, batch_start, batch_stop, batch_delete, resume, perform, perform_any, perform_all,
}

module _ {R W : Type 0} ⦃runtime : Runtime W⦄ (str : ℕ → String) (len : String → ℕ)
    (settings : Settings) where
  perform-Unique :
      (db : Database R W) (call : Call) → Unique db → Unique (perform str len settings db call)
  unfolding perform
  perform-Unique db (create request) h = create_device-Unique settings db request h
  perform-Unique db (batch_create request) h =
      batch_create_devices-Unique str len settings db request h
  perform-Unique db (update device_id request) h =
      update_device-Unique settings db device_id request h
  perform-Unique db (delete device_id) h = delete_device-Unique db device_id h
  perform-Unique db (start device_id) h = start_device-Unique db device_id h
  perform-Unique db (stop device_id) h = stop_device-Unique db device_id h

  perform_any-Unique :
      (db : Database R W) (call : AnyCall)
      → Unique db
      → Unique (perform_any str len settings db call)
  unfolding perform_any batch_start_devices batch_stop_devices batch_delete_devices
      resume_running_devices
  perform_any-Unique db (single call) h = perform-Unique db call h
  perform_any-Unique db (batch_start device_ids) h =
      batch_device_action-keeps "running" start_device Unique start_device-Unique db device_ids
        (λ d. d.status == "stopped") h
  perform_any-Unique db (batch_stop device_ids) h =
      batch_device_action-keeps "stopped" stop_device Unique stop_device-Unique db device_ids
        (λ d. not (d.status == "stopped")) h
  perform_any-Unique db (batch_delete device_ids) h =
      batch_device_action-keeps "running" delete_device Unique delete_device-Unique db
        (some device_ids) (λ d. true) h
  perform_any-Unique db resume h = h

  -- Where the devices have ids of their own, below the next fresh one, and no two of them hold
  -- one slave id on one port, that is so again after any list of calls of the service, those that
  -- fail included.
  pub perform_all-Unique :
      (db : Database R W) (calls : List AnyCall)
      → Unique db
      → Unique (perform_all str len settings db calls)
  unfolding perform_all
  perform_all-Unique db [] h = h
  perform_all-Unique db (call ∷ calls) h =
      perform_all-Unique (perform_any str len settings db call) calls (perform_any-Unique db call h)
