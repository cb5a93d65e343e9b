-- ===== src/Services/Devices/Creation/Updates.antt =====
-- An update keeps the devices apart.
use ghost_meter.Prelude.{
  ℕ, ◌≤◌, ◌≡◌, refl, ap, ◌∙◌, true, not, ◌&&◌, Option, none, some, List, arith, ◌==◌, ==_iff,
  nat_eq, string_eq, Bool-cases, inl, inr,
}
use ghost_meter.Errors.{Result, ok, err, conflict, raise_if, >>=-eq-ok}
use ghost_meter.Table.{count, find, write, count-write, count-write_keep, count_others}
use ghost_meter.Services.Devices.{
  DeviceInstance, Database, Settings, resolve_port, validate_slave_id_ceiling, has_id, holds,
  holds_other, check_slave_id_available, get_device_raw, found_device,
}
use ghost_meter.Services.Templates.{get_template}
use ghost_meter.Services.Devices.Creation.{
  DeviceUpdate, check_update, change, update_at, update_device,
}
use ghost_meter.Services.Devices.Creation.Runs.{available}
use ghost_meter.Services.Devices.Creation.Unique.{Unique}

change-has_id :
    (request : DeviceUpdate) (port i : ℕ) (d : DeviceInstance)
    → has_id i (change request port d) ≡ has_id i d
unfolding change has_id
change-has_id request port i d = refl

found_device-eq-ok :
    (o : Option DeviceInstance) {d : DeviceInstance} → found_device o ≡ ok d → o ≡ some d
unfolding found_device
found_device-eq-ok none e = cc
found_device-eq-ok (some b) e = cc

pub get_device_raw-eq-ok :
    (devices : List DeviceInstance) (i : ℕ) (d : DeviceInstance)
    → get_device_raw devices i ≡ ok d
    → find (has_id i) devices ≡ some d
unfolding get_device_raw
get_device_raw-eq-ok devices i d e = found_device-eq-ok (find (has_id i) devices) e

change-holds :
    (request : DeviceUpdate) (port : ℕ) (d : DeviceInstance) (s p : ℕ)
    → holds s p (change request port d) ≡ true
    → (request.slave_id ≡ s) × (port ≡ p)
unfolding change holds
change-holds request port d s p e =
    (ground (arith, ==_iff request.slave_id s), ground (arith, ==_iff port p))

free_of_others :
    (devices : List DeviceInstance) (s p i : ℕ)
    → count (holds_other s p (some i)) devices ≡ 0
    → count (λ b. holds s p b && not (has_id i b)) devices ≡ 0
unfolding holds_other
free_of_others devices s p i e = e

-- A device that is moved to a slave id and a port that no other holds.
moved :
    (devices : List DeviceInstance) (device_id : ℕ) (request : DeviceUpdate) (port : ℕ)
    (device : DeviceInstance)
    → find (has_id device_id) devices ≡ some device
    → count (holds_other request.slave_id port (some device_id)) devices ≡ 0
    → count (has_id device_id) devices ≤ 1
    → (s p : ℕ) → count (holds s p) devices ≤ 1
    → count (holds s p) (write (has_id device_id) (change request port) devices) ≤ 1
moved devices device_id request port device found none_else one s p le =
    let written =
      count-write (holds s p) (has_id device_id) (change request port) devices device found in
    elim (Bool-cases (holds s p (change request port device))) [
      | inl here ↦
          let (same_slave, same_port) = change-holds request port device s p here in
          let others = count_others (holds s p) (has_id device_id) devices device found one in
          let none_else' : count (λ b. holds s p b && not (has_id device_id b)) devices ≡ 0 =
            rw (← same_slave, ← same_port)
              (free_of_others devices request.slave_id port device_id none_else) in
          ground (arith, written, others, none_else', here)
      | inr elsewhere ↦ ground (arith, written, elsewhere)
    ]

module _ {R W : Type 0} where
  check_update-free :
      (settings : Settings) (db : Database R W) (device_id : ℕ) (request : DeviceUpdate) (port : ℕ)
      → check_update settings db device_id request ≡ ok port
      → (device : DeviceInstance) × (find (has_id device_id) db.devices ≡ some device)
        × (count (holds_other request.slave_id port (some device_id)) db.devices ≡ 0)
  unfolding check_update get_device_raw
  check_update-free settings db device_id request port e =
      let (device, found, e1) = >>=-eq-ok (found_device (find (has_id device_id) db.devices)) _ e in
      let (_, _, e2) =
        >>=-eq-ok (raise_if (device.status == "running") (conflict "DEVICE_RUNNING")) _ e1 in
      let (template, _, e3) = >>=-eq-ok (get_template db.templates device.template_id) _ e2 in
      let (_, _, e4) =
        >>=-eq-ok (validate_slave_id_ceiling template.protocol request.slave_id) _ e3 in
      let (at, _, e5) = >>=-eq-ok (resolve_port settings template.protocol) _ e4 in
      let (u, free, e6) =
        >>=-eq-ok (check_slave_id_available db.devices request.slave_id at (some device_id)) _ e5 in
      let same : at ≡ port = ap (λ r. elim r [ ok n ↦ n | err _ ↦ at ]) e6 in
      (
        device,
        found_device-eq-ok _ found,
        rw (← same) (available db.devices request.slave_id at (some device_id) u free),
      )

  update_at-Unique :
      (db : Database R W) (device_id : ℕ) (request : DeviceUpdate) (checked : Result ℕ)
      → ((port : ℕ)
          → checked ≡ ok port
          → (device : DeviceInstance) × (find (has_id device_id) db.devices ≡ some device)
            × (count (holds_other request.slave_id port (some device_id)) db.devices ≡ 0))
      → Unique db
      → Unique (update_at db device_id request checked).0
  unfolding update_at
  update_at-Unique db device_id request (err e) free h = h
  update_at-Unique db device_id request (ok port) free h =
      let (device, found, none_else) = free port refl in
      record {
        one_slave = λ s p.
            moved db.devices device_id request port device found none_else (h.one_id device_id) s p
              (h.one_slave s p);
        one_id = λ i.
            rw
              (count-write_keep (has_id i) (has_id device_id) (change request port) db.devices
                (change-has_id request port i))
              (h.one_id i);
        fresh = λ i above.
            count-write_keep (has_id i) (has_id device_id) (change request port) db.devices
              (change-has_id request port i)
            ∙ h.fresh i above;
      }

  pub update_device-Unique :
      (settings : Settings) (db : Database R W) (device_id : ℕ) (request : DeviceUpdate)
      → Unique db
      → Unique (update_device settings db device_id request).0
  unfolding update_device
  update_device-Unique settings db device_id request h =
      update_at-Unique db device_id request (check_update settings db device_id request)
        (check_update-free settings db device_id request) h
