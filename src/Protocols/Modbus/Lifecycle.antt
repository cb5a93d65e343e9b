-- ===== src/Protocols/Modbus/Lifecycle.antt =====
-- Every state that the adapter can come to, by any order of the calls of the device service and
-- the engine and of the server's callbacks.
use ghost_meter.Prelude.{ℕ, ◌≡◌, refl, String, none, List, [], nat_eq}
use ghost_meter.Dict.{get}
use ghost_meter.Floats.{Floats}
use ghost_meter.Simulation.FaultSimulator.{FaultSimulator}
use ghost_meter.Simulation.WriteTracker.{WriteTracker}
use ghost_meter.Protocols.Base.{RegisterInfo}
use ghost_meter.Protocols.Modbus.{
  Pymodbus, Pdu, Adapter, start, stop, add_device, remove_device, update_register, trace_request,
  trace_response, restore,
}
use ghost_meter.Protocols.Modbus.Registry.{
  IsConsistent, SameTables-IsConsistent, start-SameTables, restore-SameTables, stop-IsConsistent,
  remove_device-IsConsistent, add_device-IsConsistent, empty-IsConsistent,
}
use ghost_meter.Protocols.Modbus.Traffic.{
  trace_request-SameTables, trace_response-SameTables, update_register-SameTables,
}

-- The adapter as `__init__` leaves it; the tracker is the process's.
abbrev pub fresh_adapter : (R C : Type 0) → WriteTracker → Adapter R C
fresh_adapter R C tracker = record {
  context = none;
  device_stats = [];
  device_to_slave = [];
  slave_to_device = [];
  slave_contexts = [];
  device_registers = [];
  request_start_times = [];
  blocks = [];
  next_block = 0;
  restores = [];
  tracker = tracker;
}

-- A device is added only while it is not registered, as its status in the table of devices is
-- to ensure. Calls that raise are steps too.
pub data Reaches {R C : Type 0} ⦃F : Floats R⦄ ⦃P : Pymodbus C⦄ : Adapter R C → Type 0 where
  initial : (tracker : WriteTracker) → Reaches (fresh_adapter R C tracker)
  started : {a : Adapter R C} → Reaches a → Reaches (start a)
  stopped : {a : Adapter R C} → Reaches a → Reaches (stop a)
  added :
      {a : Adapter R C} (d s : ℕ) (regs : List RegisterInfo)
      → Reaches a
      → get a.device_to_slave d ≡ none
      → Reaches (add_device a d s regs).0
  removed : {a : Adapter R C} (d : ℕ) → Reaches a → Reaches (remove_device a d)
  updated :
      {a : Adapter R C} (d address fc : ℕ) (value : R) (data_type byte_order : String)
      → Reaches a
      → Reaches (update_register a d address fc value data_type byte_order).0
  requested :
      {a : Adapter R C} (faults : FaultSimulator R) (pdu : Pdu) (clock : R) (now : ℕ) (roll : R)
      → Reaches a
      → Reaches (trace_request a faults pdu clock now roll).0
  responded :
      {a : Adapter R C} (faults : FaultSimulator R) (pdu : Pdu) (clock : R)
      → Reaches a
      → Reaches (trace_response a faults pdu clock).0
  restored : {a : Adapter R C} (i : ℕ) → Reaches a → Reaches (restore a i)

-- In every state that the adapter can come to while a device is added only when it is not
-- registered, the tables of devices and of slaves undo each other, every slave has a datastore,
-- and every device its registers and its counters.
pub Reaches-IsConsistent :
    {R C : Type 0} ⦃F : Floats R⦄ ⦃P : Pymodbus C⦄ (a : Adapter R C) → Reaches a → IsConsistent a
Reaches-IsConsistent _ (initial tracker) = empty-IsConsistent _ refl refl refl refl refl
Reaches-IsConsistent _ (started r) =
    SameTables-IsConsistent _ _ (start-SameTables _) (Reaches-IsConsistent _ r)
Reaches-IsConsistent _ (stopped r) = stop-IsConsistent _
Reaches-IsConsistent _ (added d s regs r fresh) =
    add_device-IsConsistent _ d s regs fresh (Reaches-IsConsistent _ r)
Reaches-IsConsistent _ (removed d r) = remove_device-IsConsistent _ d (Reaches-IsConsistent _ r)
Reaches-IsConsistent _ (updated d address fc value data_type byte_order r) =
    SameTables-IsConsistent _ _
      (update_register-SameTables _ d address fc value data_type byte_order)
      (Reaches-IsConsistent _ r)
Reaches-IsConsistent _ (requested faults pdu clock now roll r) =
    SameTables-IsConsistent _ _ (trace_request-SameTables _ faults pdu clock now roll)
      (Reaches-IsConsistent _ r)
Reaches-IsConsistent _ (responded faults pdu clock r) =
    SameTables-IsConsistent _ _ (trace_response-SameTables _ faults pdu clock)
      (Reaches-IsConsistent _ r)
Reaches-IsConsistent _ (restored i r) =
    SameTables-IsConsistent _ _ (restore-SameTables _ i) (Reaches-IsConsistent _ r)
