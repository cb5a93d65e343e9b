-- ===== src/Services/Devices/Calls.antt =====
-- The calls that the routes make of the service, so that any use of it is a list of calls.
pub mod Unique
pub mod Status
use ghost_meter.Prelude.{ℕ, String, Option, List, [], ◌∷◌}
use ghost_meter.Services.Devices.{DeviceInstance, Database, Settings}
use ghost_meter.Services.Devices.Evolution.{Call, create, batch_create, update, delete, start, stop}
use ghost_meter.Services.Devices.Creation.{
  create_device, batch_create_devices, update_device, delete_device,
}
use ghost_meter.Services.Devices.Running.{
  Runtime, start_device, stop_device, resume_running_devices, batch_start_devices,
  batch_stop_devices, batch_delete_devices,
}

-- Any call, the resumption at startup included.
pub data AnyCall : Type 0 where
  single : Call → AnyCall
  batch_start batch_stop : Option (List ℕ) → AnyCall
  batch_delete : List ℕ → AnyCall
  resume : AnyCall

module _ {R W : Type 0} ⦃runtime : Runtime W⦄ (str : ℕ → String) (len : String → ℕ)
    (settings : Settings) where
  unfoldable pub perform : Database R W → Call → Database R W
  perform db (create request) = (create_device settings db request).0
  perform db (batch_create request) = (batch_create_devices str len settings db request).0
  perform db (update device_id request) = (update_device settings db device_id request).0
  perform db (delete device_id) = (delete_device db device_id).0
  perform db (start device_id) = (start_device db device_id).0
  perform db (stop device_id) = (stop_device db device_id).0

  unfoldable pub perform_any : Database R W → AnyCall → Database R W
  unfolding perform
  perform_any db (single call) = perform db call
  perform_any db (batch_start device_ids) = (batch_start_devices db device_ids).0
  perform_any db (batch_stop device_ids) = (batch_stop_devices db device_ids).0
  perform_any db (batch_delete device_ids) = (batch_delete_devices db device_ids).0
  perform_any db resume = (resume_running_devices db).0

  unfoldable pub perform_all : Database R W → List AnyCall → Database R W
  unfolding perform_any
  perform_all db [] = db
  perform_all db (call ∷ calls) = perform_all (perform_any db call) calls
