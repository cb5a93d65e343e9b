-- ===== src/Services/Devices/Creation.antt =====
-- create_device, batch_create_devices, update_device and delete_device. Each call is a transaction
-- of its own, so the unique constraint on the slave id and the port, which the calls check before
-- they commit, does not fire.
pub mod Runs
pub mod Unique
pub mod Updates
pub mod Status
pub mod Batch
use ghost_meter.Prelude.{
  ℕ, zero, suc, ◌+◌, ◌-◌, String, Bool, true, false, not, Option, none, some, List, length, [], ◌∷◌,
  ◌++◌, map, ltb, ◌==◌, nat_eq, string_eq, if◌then◌else◌,
}
use Prim.Native.String.{◌++◌ as ◌<>◌}
use ghost_meter.Errors.{Result, ok, err, Error, validation, conflict, raise_if, ◌>>=◌, ◌>>◌}
use ghost_meter.Table.{filter, remove, write}
use ghost_meter.Services.Configurations.{SimulationConfig}
use ghost_meter.Services.Profiles.{
  SimulationProfile, get_profile, get_default_profile, apply_profile_to_device,
}
use ghost_meter.Services.Devices.{
  DeviceInstance, Database, Outcome, Settings, resolve_port, validate_slave_id_ceiling, has_id,
  check_slave_id_available, get_device_raw,
}
use ghost_meter.Services.Templates.{get_template}

-- `profile_id` is `none` where the request does not set it, and `some none` where it sets null.
pub record DeviceCreate : Type 0 where
  pub template_id : ℕ
  pub name : String
  pub slave_id : ℕ
  pub description : Option String
  pub profile_id : Option (Option ℕ)

pub record DeviceBatchCreate : Type 0 where
  pub template_id : ℕ
  pub slave_id_start : ℕ
  pub slave_id_end : ℕ
  pub name_prefix : Option String
  pub description : Option String
  pub profile_id : Option (Option ℕ)

pub record DeviceUpdate : Type 0 where
  pub name : String
  pub slave_id : ℕ
  pub description : Option String

new_device : ℕ → ℕ → String → ℕ → ℕ → Option String → DeviceInstance
new_device id template_id name slave_id port description = record {
  id = id;
  template_id = template_id;
  name = name;
  slave_id = slave_id;
  status = "stopped";
  port = port;
  description = description;
}

module _ {R : Type 0} where
  of_template : ℕ → SimulationProfile R → Result (Option (SimulationProfile R))
  of_template template_id profile =
      if profile.template_id == template_id then ok (some profile) else err validation

  pub resolve_profile :
      List (SimulationProfile R) → ℕ → Option (Option ℕ) → Result (Option (SimulationProfile R))
  unfolding of_template
  resolve_profile profiles template_id none = get_default_profile profiles template_id
  resolve_profile profiles template_id (some none) = ok none
  resolve_profile profiles template_id (some (some profile_id)) =
      get_profile profiles profile_id >>= of_template template_id

  expand :
      Option (SimulationProfile R)
      → ℕ
      → List (SimulationConfig R)
      → Result (List (SimulationConfig R))
  expand none device_id rows = ok rows
  expand (some profile) device_id rows = apply_profile_to_device profile device_id rows

  -- `_resolve_and_apply_profile`
  resolve_and_apply_profile :
      List (SimulationProfile R)
      → ℕ
      → Option (Option ℕ)
      → ℕ
      → List (SimulationConfig R)
      → Result (List (SimulationConfig R))
  unfolding resolve_profile expand
  resolve_and_apply_profile profiles template_id profile_id device_id rows = do
    profile ← resolve_profile profiles template_id profile_id
    expand profile device_id rows

-- The loop over `range(slave_id_start, slave_id_end + 1)`, as the count of slaves left.
all_available : List DeviceInstance → ℕ → ℕ → ℕ → Result (Unit {0})
all_available devices port slave_id zero = ok tt
all_available devices port slave_id (suc n) =
    check_slave_id_available devices slave_id port none
    >> all_available devices port (slave_id + 1) n

-- `data.name_prefix or template.name`, and the name of one device; `str` is Python's.
abbrev prefix_of : Option String → String → String
prefix_of none name = name
prefix_of (some prefix) name = if prefix == "" then name else prefix

abbrev is_prefixed : Option String → Bool
is_prefixed none = false
is_prefixed (some prefix) = not (prefix == "")

device_name : (ℕ → String) → DeviceBatchCreate → String → ℕ → String
device_name str request template_name slave_id =
    let prefix = prefix_of request.name_prefix template_name in
    if is_prefixed request.name_prefix
    then prefix <> str slave_id
    else prefix <> (" - Slave " <> str slave_id)

-- The loop that builds the devices; `len` is Python's.
build_devices :
    (ℕ → String)
    → (String → ℕ)
    → DeviceBatchCreate
    → String
    → ℕ
    → ℕ
    → ℕ
    → ℕ
    → Result (List DeviceInstance)
unfolding device_name new_device
build_devices str len request template_name port id slave_id zero = ok []
build_devices str len request template_name port id slave_id (suc n) = do
  let name = device_name str request template_name slave_id
  raise_if (ltb 200 (len name)) validation
  devices ← build_devices str len request template_name port (id + 1) (slave_id + 1) n
  ok (new_device id request.template_id name slave_id port request.description ∷ devices)

change : DeviceUpdate → ℕ → DeviceInstance → DeviceInstance
change request port device = record device {
  name = request.name;
  slave_id = request.slave_id;
  port = port;
  description = request.description;
}

module _ {R W : Type 0} where
  -- The second commit: the devices are in the table already.
  commit_profiles : Database R W → Result (List (SimulationConfig R)) → Outcome R W (Unit {0})
  commit_profiles db (ok rows) = (record db { simulation_configs = rows }, ok tt)
  commit_profiles db (err e) = (db, err e)

  -- The checks before the first commit; the port is what they give.
  check_create : Settings → Database R W → DeviceCreate → Result ℕ
  check_create settings db request = do
    template ← get_template db.templates request.template_id
    validate_slave_id_ceiling template.protocol request.slave_id
    port ← resolve_port settings template.protocol
    check_slave_id_available db.devices request.slave_id port none
    ok port

  add_device : Database R W → DeviceInstance → Database R W
  add_device db device = record db { devices = db.devices ++ device ∷ []; next_id = db.next_id + 1 }

  create_at : Database R W → DeviceCreate → Result ℕ → Outcome R W (Unit {0})
  unfolding new_device add_device commit_profiles resolve_and_apply_profile
  create_at db request (err e) = (db, err e)
  create_at db request (ok port) =
      commit_profiles
        (add_device db (
          new_device db.next_id request.template_id request.name request.slave_id port
            request.description))
        (resolve_and_apply_profile db.profiles request.template_id request.profile_id db.next_id
          db.simulation_configs)

  unfoldable pub create_device : Settings → Database R W → DeviceCreate → Outcome R W (Unit {0})
  unfolding check_create create_at
  create_device settings db request = create_at db request (check_create settings db request)

  pub check_batch :
      (ℕ → String)
      → (String → ℕ)
      → Settings
      → Database R W
      → DeviceBatchCreate
      → Result (List DeviceInstance)
  unfolding all_available build_devices
  check_batch str len settings db request = do
    raise_if (ltb request.slave_id_end request.slave_id_start) validation
    let n = request.slave_id_end - request.slave_id_start + 1
    raise_if (ltb 50 n) validation
    template ← get_template db.templates request.template_id
    validate_slave_id_ceiling template.protocol request.slave_id_end
    port ← resolve_port settings template.protocol
    all_available db.devices port request.slave_id_start n
    build_devices str len request template.name port db.next_id request.slave_id_start n

  apply_profiles :
      Database R W
      → DeviceBatchCreate
      → List DeviceInstance
      → List (SimulationConfig R)
      → Result (List (SimulationConfig R))
  unfolding resolve_and_apply_profile
  apply_profiles db request [] rows = ok rows
  apply_profiles db request (device ∷ devices) rows = do
    applied ←
        resolve_and_apply_profile db.profiles request.template_id request.profile_id device.id rows
    apply_profiles db request devices applied

  add_devices : Database R W → List DeviceInstance → Database R W
  add_devices db devices = record db {
    devices = db.devices ++ devices;
    next_id = db.next_id + length devices;
  }

  batch_at :
      Database R W → DeviceBatchCreate → Result (List DeviceInstance) → Outcome R W (Unit {0})
  unfolding add_devices commit_profiles apply_profiles
  batch_at db request (err e) = (db, err e)
  batch_at db request (ok devices) =
      commit_profiles (add_devices db devices)
        (apply_profiles db request devices db.simulation_configs)

  unfoldable pub batch_create_devices :
      (ℕ → String)
      → (String → ℕ)
      → Settings
      → Database R W
      → DeviceBatchCreate
      → Outcome R W (Unit {0})
  unfolding check_batch batch_at
  batch_create_devices str len settings db request =
      batch_at db request (check_batch str len settings db request)

  check_update : Settings → Database R W → ℕ → DeviceUpdate → Result ℕ
  check_update settings db device_id request = do
    device ← get_device_raw db.devices device_id
    raise_if (device.status == "running") (conflict "DEVICE_RUNNING")
    template ← get_template db.templates device.template_id
    validate_slave_id_ceiling template.protocol request.slave_id
    port ← resolve_port settings template.protocol
    check_slave_id_available db.devices request.slave_id port (some device_id)
    ok port

  update_at : Database R W → ℕ → DeviceUpdate → Result ℕ → Outcome R W (Unit {0})
  unfolding change
  update_at db device_id request (err e) = (db, err e)
  update_at db device_id request (ok port) =
      (record db { devices = write (has_id device_id) (change request port) db.devices }, ok tt)

  unfoldable pub update_device : Settings → Database R W → ℕ → DeviceUpdate → Outcome R W (Unit {0})
  unfolding check_update update_at
  update_device settings db device_id request =
      update_at db device_id request (check_update settings db device_id request)

  check_delete : Database R W → ℕ → Result (Unit {0})
  check_delete db device_id = do
    device ← get_device_raw db.devices device_id
    raise_if (device.status == "running") (conflict "DEVICE_RUNNING")

  delete_at : Database R W → ℕ → Result (Unit {0}) → Outcome R W (Unit {0})
  delete_at db device_id (err e) = (db, err e)
  delete_at db device_id (ok _) = (
    record db {
      devices = remove (has_id device_id) db.devices;
      simulation_configs = filter (λ row. not (row.device_id == device_id)) db.simulation_configs;
    },
    ok tt,
  )

  -- The device's configurations go with it, by the foreign key's ON DELETE CASCADE.
  unfoldable pub delete_device : Database R W → ℕ → Outcome R W (Unit {0})
  unfolding check_delete delete_at
  delete_device db device_id = delete_at db device_id (check_delete db device_id)
