-- ===== src/Services/Devices/Calls/Status.antt =====
-- The life of the device of one id: every call leaves it, or takes a step of its status machine.
use ghost_meter.Prelude.{ℕ, String, ◌≡◌, some}
use ghost_meter.Services.Devices.{DeviceInstance, Database, Settings}
use ghost_meter.Services.Devices.Creation.Unique.{Unique}
use ghost_meter.Services.Devices.Creation.Status.{
  create_device-row, batch_create_devices-row, update_device-Evolves, delete_device-Evolves,
}
use ghost_meter.Services.Devices.Running.{Runtime}
use ghost_meter.Services.Devices.Running.Status.{start_device-Evolves, stop_device-Evolves}
use ghost_meter.Services.Devices.Evolution.{
  Call, create, batch_create, update, delete, start, stop, Evolves, row, same_row,
}
use ghost_meter.Services.Devices.Calls.{perform}

module _ {R W : Type 0} ⦃runtime : Runtime W⦄ (str : ℕ → String) (len : String → ℕ)
    (settings : Settings) where
  -- Where ids and slaves are unique, a call leaves the row of a device as it is, but for the
  -- calls with its own id: a delete and an update of a device that is not running, a start of a
  -- stopped one, which leaves it running or in error, and a stop of one that is not stopped.
  pub perform-Evolves :
      (db : Database R W) (call : Call) (i : ℕ) (device : DeviceInstance)
      → Unique db
      → row i db ≡ some device
      → Evolves i device call (row i (perform str len settings db call))
  unfolding perform
  perform-Evolves db (create request) i d h e =
      same_row i (create request) d _ (create_device-row i settings db request d e)
  perform-Evolves db (batch_create request) i d h e =
      same_row i (batch_create request) d _
        (batch_create_devices-row i str len settings db request d e)
  perform-Evolves db (update j request) i d h e = update_device-Evolves i j settings db request d e
  perform-Evolves db (delete j) i d h e = delete_device-Evolves i j db d h e
  perform-Evolves db (start j) i d h e = start_device-Evolves i j db d e
  perform-Evolves db (stop j) i d h e = stop_device-Evolves i j db d e
