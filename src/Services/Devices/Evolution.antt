-- ===== src/Services/Devices/Evolution.antt =====
-- The calls for one device, or that make devices, and what each may do to the row of one id.
use mathlib.Core.Path.{subst}
use ghost_meter.Prelude.{
  ℕ, ◌≡◌, sym, ◌∙◌, String, true, false, Option, none, some, List, arith, ◌==◌, ==_iff, nat_eq,
  string_eq,
}
use ghost_meter.Table.{find, write, find-write, find-write_self, find-hit}
use ghost_meter.Services.Devices.{DeviceInstance, Database, has_id}
use ghost_meter.Services.Devices.Creation.{DeviceCreate, DeviceBatchCreate, DeviceUpdate}

-- A call for one device, or one that makes devices.
pub data Call : Type 0 where
  create : DeviceCreate → Call
  batch_create : DeviceBatchCreate → Call
  update : ℕ → DeviceUpdate → Call
  delete start stop : ℕ → Call

-- What may become of a device with id `i` by a call: the row after it, if there is one.
pub data Evolves (i : ℕ) (device : DeviceInstance) : Call → Option DeviceInstance → Type 0 where
  untouched : (call : Call) → Evolves i device call (some device)
  deleted : ¬ (device.status ≡ "running") → Evolves i device (delete i) none
  edited :
      (request : DeviceUpdate) (port : ℕ)
      → ¬ (device.status ≡ "running")
      → Evolves i device (update i request) (
          some (record device {
            name = request.name;
            slave_id = request.slave_id;
            port = port;
            description = request.description;
          }))
  started :
      device.status ≡ "stopped"
      → Evolves i device (start i) (some (record device { status = "running" }))
  failed :
      device.status ≡ "stopped"
      → Evolves i device (start i) (some (record device { status = "error" }))
  stopped :
      ¬ (device.status ≡ "stopped")
      → Evolves i device (stop i) (some (record device { status = "stopped" }))

pub has_id-other :
    (i j : ℕ) → ¬ (i ≡ j) → (d : DeviceInstance) → has_id j d ≡ true → has_id i d ≡ false
unfolding has_id
has_id-other i j apart d e = ground (arith, ==_iff d.id j, ==_iff d.id i)

pub has_id_self : (i : ℕ) (d : DeviceInstance) → has_id i d ≡ true → d.id ≡ i
unfolding has_id
has_id_self i d e = (==_iff d.id i).0 e

pub differs : (a b : String) → (a == b) ≡ false → ¬ (a ≡ b)
differs a b e same = ground (arith, ==_iff a b)

-- The row of id `i`, after the row of id `j` is written.
pub find-write_other :
    (i j : ℕ) (f : DeviceInstance → DeviceInstance) (rows : List DeviceInstance)
    → ((d : DeviceInstance) → has_id i (f d) ≡ has_id i d)
    → ¬ (i ≡ j)
    → find (has_id i) (write (has_id j) f rows) ≡ find (has_id i) rows
find-write_other i j f rows keep apart =
    find-write (has_id i) (has_id j) f rows keep (has_id-other i j apart)

pub find-write_same :
    (i j : ℕ) (f : DeviceInstance → DeviceInstance) (rows : List DeviceInstance)
    (d : DeviceInstance)
    → j ≡ i
    → ((d : DeviceInstance) → has_id i (f d) ≡ has_id i d)
    → find (has_id i) rows ≡ some d
    → find (has_id i) (write (has_id j) f rows) ≡ some (f d)
find-write_same i j f rows d same keep e =
    rw same (find-write_self (has_id i) f rows d e (keep d ∙ find-hit (has_id i) rows d e))

pub evolved :
    (i : ℕ) (call : Call) (d : DeviceInstance) {o after : Option DeviceInstance}
    → o ≡ after
    → Evolves i d call after
    → Evolves i d call o
evolved i call d e h = subst (Evolves i d call) (sym e) h

pub same_row :
    (i : ℕ) (call : Call) (d : DeviceInstance) (o : Option DeviceInstance)
    → o ≡ some d
    → Evolves i d call o
same_row i call d o e = evolved i call d e (untouched call)

module _ {R W : Type 0} where
  -- The database after a call, for the device that it found by the id `i`.
  abbrev pub row : ℕ → Database R W → Option DeviceInstance
  row i db = find (has_id i) db.devices
