-- ===== src/Services/Devices/Running/Unique.antt =====
-- start_device, stop_device and the batches keep the devices apart: no two share an id, or a slave
-- id on one port.
use ghost_meter.Prelude.{
  ℕ, ◌≡◌, refl, String, Bool, Option, List, [], ◌∷◌, arith, ◌==◌, nat_eq, string_eq, Bool-cases,
  inl, inr,
}
use ghost_meter.Errors.{Result, ok, err}
use ghost_meter.Table.{write, count, count-write_keep}
use ghost_meter.Services.Templates.{TemplateData}
use ghost_meter.Services.Devices.{DeviceInstance, Database, Outcome, has_id, holds}
use ghost_meter.Services.Devices.Creation.Unique.{Unique, AreUnique}
use ghost_meter.Services.Devices.Running.{
  Runtime, set_status, register_device_runtime, with_status, finish_start, check_start, start_with,
  start_device, unregister, finish_stop, stop_all, check_stop, stop_with, stop_device, selected,
  no_counts, act_each, act, counted, BatchActionResult, batch_device_action,
}

set_status-count :
    (p : DeviceInstance → Bool) (s : String) (i : ℕ) (rows : List DeviceInstance)
    → ((d : DeviceInstance) → p (set_status s d) ≡ p d)
    → count p (write (has_id i) (set_status s) rows) ≡ count p rows
set_status-count p s i rows keep = count-write_keep p (has_id i) (set_status s) rows keep

set_status-AreUnique :
    (s : String) (i : ℕ) (rows : List DeviceInstance) (next_id : ℕ)
    → AreUnique rows next_id
    → AreUnique (write (has_id i) (set_status s) rows) next_id
unfolding set_status holds has_id
set_status-AreUnique s i rows next_id h = record {
  one_slave =
      λ t p. omega (arith, h.one_slave t p, set_status-count (holds t p) s i rows (λ d. refl));
  one_id = λ j. omega (arith, h.one_id j, set_status-count (has_id j) s i rows (λ d. refl));
  fresh =
      λ j above. omega (arith, h.fresh j above, set_status-count (has_id j) s i rows (λ d. refl));
}

module _ {R W : Type 0} (skip_status : String) (action : Database R W → ℕ → Outcome R W (Unit {0}))
    (P : Database R W → Type 0)
    (keeps : (db : Database R W) (i : ℕ) → P db → P (action db i).0) where
  counted-keeps :
      (n : BatchActionResult) (r : Outcome R W (Unit {0}))
      → P r.0
      → P (counted skip_status action n r).0
  unfolding counted
  counted-keeps n (db, ok _) h = h
  counted-keeps n (db, err e) h = h

  act-keeps :
      (db : Database R W) (n : BatchActionResult) (device : DeviceInstance)
      → P db
      → P (act skip_status action (db, n) device).0
  unfolding act
  act-keeps db n device h = elim (Bool-cases (device.status == skip_status)) [
    | inl skip ↦ rw (act, skip) h
    | inr run ↦ rw (act, run) (counted-keeps n (action db device.id) (keeps db device.id h))
  ]

  act_each-keeps :
      (db : Database R W) (n : BatchActionResult) (devices : List DeviceInstance)
      → P db
      → P (act_each skip_status action (db, n) devices).0
  unfolding act_each
  act_each-keeps db n [] h = h
  act_each-keeps db n (device ∷ devices) h =
      act_each-keeps (act skip_status action (db, n) device).0
        (act skip_status action (db, n) device).1 devices (act-keeps db n device h)

  -- A batch keeps what its action keeps.
  pub batch_device_action-keeps :
      (db : Database R W) (device_ids : Option (List ℕ)) (default_filter : DeviceInstance → Bool)
      → P db
      → P (batch_device_action skip_status action db device_ids default_filter).0
  unfolding batch_device_action
  batch_device_action-keeps db device_ids default_filter h =
      act_each-keeps db no_counts (selected device_ids default_filter db.devices) h

module _ {R W : Type 0} ⦃runtime : Runtime W⦄ where
  finish_start-Unique :
      (db : Database R W) (device : DeviceInstance) (template : TemplateData R)
      (r : W × Result (Unit {0}))
      → Unique db
      → Unique (finish_start db device template r).0
  unfolding finish_start with_status
  finish_start-Unique db device template (w, ok _) h =
      set_status-AreUnique "running" device.id db.devices db.next_id h
  finish_start-Unique db device template (w, err e) h =
      set_status-AreUnique "error" device.id db.devices db.next_id h

  start_with-Unique :
      (db : Database R W) (r : Result (DeviceInstance × TemplateData R))
      → Unique db
      → Unique (start_with db r).0
  unfolding start_with
  start_with-Unique db (err e) h = h
  start_with-Unique db (ok (device, template)) h =
      finish_start-Unique db device template (register_device_runtime db.world device template) h

  pub start_device-Unique :
      (db : Database R W) (device_id : ℕ) → Unique db → Unique (start_device db device_id).0
  unfolding start_device
  start_device-Unique db device_id h = start_with-Unique db (check_start db device_id) h

  finish_stop-Unique :
      (db : Database R W) (device : DeviceInstance) (w : W) (r : Result W)
      → Unique db
      → Unique (finish_stop db device w r).0
  unfolding finish_stop with_status
  finish_stop-Unique db device w (err e) h = h
  finish_stop-Unique db device w (ok w') h =
      set_status-AreUnique "stopped" device.id db.devices db.next_id h

  stop_with-Unique :
      (db : Database R W) (r : Result DeviceInstance) → Unique db → Unique (stop_with db r).0
  unfolding stop_with
  stop_with-Unique db (err e) h = h
  stop_with-Unique db (ok device) h =
      let w = stop_all db.world device.id in
      finish_stop-Unique db device w (unregister db device w) h

  pub stop_device-Unique :
      (db : Database R W) (device_id : ℕ) → Unique db → Unique (stop_device db device_id).0
  unfolding stop_device
  stop_device-Unique db device_id h = stop_with-Unique db (check_stop db device_id) h
