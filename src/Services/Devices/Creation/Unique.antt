-- ===== src/Services/Devices/Creation/Unique.antt =====
-- No two devices share an id, or a slave id on one port, whatever calls are made.
use ghost_meter.Prelude.{
  ℕ, ◌+◌, ◌≤◌, ◌<◌, ◌≡◌, refl, ap, String, ◌&&◌, Option, none, List, [], ◌∷◌, ◌++◌, arith, length,
  ltb, leb, ==_iff, nat_eq, string_eq,
}
use ghost_meter.Errors.{Result, ok, err, >>=-eq-ok}
use ghost_meter.Table.{bit, count, count-append, count-remove}
use ghost_meter.Services.Configurations.{SimulationConfig}
use ghost_meter.Services.Devices.{
  DeviceInstance, Database, Settings, resolve_port, validate_slave_id_ceiling, has_id, holds,
  check_slave_id_available,
}
use ghost_meter.Services.Templates.{get_template}
use ghost_meter.Services.Devices.Creation.{
  resolve_and_apply_profile, apply_profiles, DeviceCreate, DeviceBatchCreate, new_device,
  check_create, create_at, create_device, commit_profiles, add_device, check_batch, add_devices,
  batch_at, batch_create_devices, check_delete, delete_at, delete_device,
}
use ghost_meter.Services.Devices.Creation.Runs.{available_none, size, IsRun, check_batch-IsRun}

pub record AreUnique (devices : List DeviceInstance) (next_id : ℕ) : Type 0 where
  pub one_slave : (s p : ℕ) → count (holds s p) devices ≤ 1
  pub one_id : (i : ℕ) → count (has_id i) devices ≤ 1
  pub fresh : (i : ℕ) → next_id ≤ i → count (has_id i) devices ≡ 0

-- Rows that are added under fresh ids, on free slave ids.
append-AreUnique :
    (devices more : List DeviceInstance) (next_id : ℕ)
    → AreUnique devices next_id
    → ((s p : ℕ) → count (holds s p) more ≤ 1)
    → ((s p : ℕ) → 0 < count (holds s p) more → count (holds s p) devices ≡ 0)
    → ((i : ℕ) → count (has_id i) more ≡ bit (leb next_id i && ltb i (next_id + length more)))
    → AreUnique (devices ++ more) (next_id + length more)
append-AreUnique devices more next_id h once free ids = record {
  one_slave = λ s p.
      ground (arith, count-append (holds s p) devices more, once s p, free s p, h.one_slave s p);
  one_id = λ i. ground (arith, count-append (has_id i) devices more, ids i, h.one_id i, h.fresh i);
  fresh = λ i. ground (arith, count-append (has_id i) devices more, ids i, h.fresh i);
}

module _ {R W : Type 0} where
  -- The rows of a database and its fresh id.
  abbrev pub Unique : Database R W → Type 0
  Unique db = AreUnique db.devices db.next_id

  commit_profiles-keeps :
      (db : Database R W) (r : Result (List (SimulationConfig R)))
      → Unique db
      → Unique (commit_profiles db r).0
  unfolding commit_profiles
  commit_profiles-keeps db (ok rows) h = h
  commit_profiles-keeps db (err e) h = h

  add_devices-Unique :
      (db : Database R W) (port s n : ℕ) (built : List DeviceInstance)
      → IsRun port db.next_id s n built
      → ((t : ℕ) → s ≤ t → t < s + n → count (holds t port) db.devices ≡ 0)
      → Unique db
      → Unique (add_devices db built)
  unfolding add_devices
  add_devices-Unique db port s n built run free h =
      append-AreUnique db.devices built db.next_id h (λ t p. ground (arith, run.slaves t p))
        (λ t p pos'.
          let at_port : p ≡ port = ground (arith, run.slaves t p, ==_iff p port) in
          rw at_port (free t (ground (arith, run.slaves t p)) (ground (arith, run.slaves t p))))
        (λ i. rw run.lengths (run.ids i))

  batch_at-Unique :
      (db : Database R W) (request : DeviceBatchCreate) (checked : Result (List DeviceInstance))
      → ((built : List DeviceInstance) → checked ≡ ok built → Unique (add_devices db built))
      → Unique db
      → Unique (batch_at db request checked).0
  unfolding batch_at
  batch_at-Unique db request (ok built) added h =
      commit_profiles-keeps (add_devices db built)
        (apply_profiles db request built db.simulation_configs) (added built refl)
  batch_at-Unique db request (err e) added h = h

  pub batch_create_devices-Unique :
      (str : ℕ → String) (len : String → ℕ) (settings : Settings) (db : Database R W)
      (request : DeviceBatchCreate)
      → Unique db
      → Unique (batch_create_devices str len settings db request).0
  unfolding batch_create_devices
  batch_create_devices-Unique str len settings db request h =
      batch_at-Unique db request (check_batch str len settings db request)
        (λ built e.
          let (port, run, free, _) = check_batch-IsRun str len settings db request built e in
          add_devices-Unique db port request.slave_id_start (size request) built run free h)
        h

  check_create-free :
      (settings : Settings) (db : Database R W) (request : DeviceCreate) (port : ℕ)
      → check_create settings db request ≡ ok port
      → count (holds request.slave_id port) db.devices ≡ 0
  unfolding check_create
  check_create-free settings db request port e =
      let (template, _, e1) = >>=-eq-ok (get_template db.templates request.template_id) _ e in
      let (_, _, e2) =
        >>=-eq-ok (validate_slave_id_ceiling template.protocol request.slave_id) _ e1 in
      let (found, _, e3) = >>=-eq-ok (resolve_port settings template.protocol) _ e2 in
      let (u, free, e4) =
        >>=-eq-ok (check_slave_id_available db.devices request.slave_id found none) _ e3 in
      let same : found ≡ port = ap (λ r. elim r [ ok n ↦ n | err _ ↦ found ]) e4 in
      rw (← same) (available_none db.devices request.slave_id found u free)

  add_device-Unique :
      (db : Database R W) (template_id : ℕ) (name : String) (s p : ℕ) (description : Option String)
      → count (holds s p) db.devices ≡ 0
      → Unique db
      → Unique (add_device db (new_device db.next_id template_id name s p description))
  unfolding add_device holds has_id new_device count
  add_device-Unique db template_id name s p description free h =
      append-AreUnique db.devices (new_device db.next_id template_id name s p description ∷ [])
        db.next_id h (λ t q. ground arith) (λ t q some'. ground (arith, ==_iff s t, ==_iff p q))
        (λ i. ground (arith, ==_iff db.next_id i))

  create_at-Unique :
      (db : Database R W) (request : DeviceCreate) (checked : Result ℕ)
      → ((port : ℕ) → checked ≡ ok port → count (holds request.slave_id port) db.devices ≡ 0)
      → Unique db
      → Unique (create_at db request checked).0
  unfolding create_at
  create_at-Unique db request (ok port) free h =
      commit_profiles-keeps _
        (resolve_and_apply_profile db.profiles request.template_id request.profile_id db.next_id
          db.simulation_configs)
        (add_device-Unique db request.template_id request.name request.slave_id port
          request.description (free port refl) h)
  create_at-Unique db request (err e) free h = h

  pub create_device-Unique :
      (settings : Settings) (db : Database R W) (request : DeviceCreate)
      → Unique db
      → Unique (create_device settings db request).0
  unfolding create_device
  create_device-Unique settings db request h =
      create_at-Unique db request (check_create settings db request)
        (check_create-free settings db request) h

  delete_at-Unique :
      (db : Database R W) (device_id : ℕ) (checked : Result (Unit {0}))
      → Unique db
      → Unique (delete_at db device_id checked).0
  unfolding delete_at
  delete_at-Unique db device_id (err e) h = h
  delete_at-Unique db device_id (ok _) h = record {
    one_slave = λ s p.
        omega (arith, count-remove (holds s p) (has_id device_id) db.devices, h.one_slave s p);
    one_id = λ i. omega (arith, count-remove (has_id i) (has_id device_id) db.devices, h.one_id i);
    fresh = λ i above.
        omega (arith, count-remove (has_id i) (has_id device_id) db.devices, h.fresh i above);
  }

  pub delete_device-Unique :
      (db : Database R W) (device_id : ℕ) → Unique db → Unique (delete_device db device_id).0
  unfolding delete_device
  delete_device-Unique db device_id h = delete_at-Unique db device_id (check_delete db device_id) h
