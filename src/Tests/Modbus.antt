-- ===== src/Tests/Modbus.antt =====
-- Two meters behind one Modbus server. A slave's datastore is a log of what was written to it.
use ghost_meter.Prelude.{ℕ, ◌≡◌, refl, Option, none, some, List, [], ◌∷◌, ◌++◌, nat_eq, string_eq}
use ghost_meter.Prelude.Int.{ℤ, pos}
use ghost_meter.Dict.{Dict, get, get_or, put, pop, has}
use ghost_meter.Floats.Exact.{exact}
use ghost_meter.Simulation.FaultSimulator.{FaultSimulator, get_fault}
use ghost_meter.Simulation.WriteTracker.{init}
use ghost_meter.Protocols.Modbus.{
  Pymodbus, Pdu, Adapter, start, add_device, remove_device, trace_request, restore, suppress_slave,
}
use ghost_meter.Protocols.Modbus.Registry.{IsConsistent}
use ghost_meter.Protocols.Modbus.Lifecycle.{
  fresh_adapter, Reaches, initial, started, added, requested, Reaches-IsConsistent,
}

abbrev Log : Type 0
Log = List (List ℕ)

instance abbrev logged : Pymodbus Log
logged = record {
  new_context = λ hr ir. (hr ∷ (ir ∷ [])) ∷ [];
  set_values = λ log fc address words. log ++ (words ∷ []);
  str = λ n. "n";
}

abbrev read_one : Pdu
read_one = record {
  dev_id = 1;
  transaction_id = 9;
  function_code = 4;
  address = 0;
  registers = [];
  bits = [];
}

abbrev silent : FaultSimulator ℤ
silent = record { device_faults = (70, record { fault_type = "timeout"; params = [] }) ∷ [] }

-- Device 70 is slave 1, and a client's request to it times out.
abbrev timed_out : Adapter ℤ Log
timed_out =
    (trace_request (add_device (start (fresh_adapter ℤ Log init)) 70 1 []).0 silent read_one (pos 0)
      5 (pos 0)).0

timed_out-Reaches : Reaches timed_out
unfolding start get
timed_out-Reaches =
    requested silent read_one (pos 0) 5 (pos 0) (added 70 1 [] (started (initial init)) refl)

Reaches-IsConsistent_example : IsConsistent timed_out
Reaches-IsConsistent_example = Reaches-IsConsistent timed_out timed_out-Reaches

-- In the tenth of a second before the slave is restored, its device is removed and another is
-- added in its place.
abbrev replaced : Adapter ℤ Log
replaced = restore (add_device (remove_device timed_out 70) 71 1 []).0 0

abbrev slave_block : Option (Dict ℕ ℕ) → Option ℕ
unfolding get
slave_block none = none
slave_block (some devices) = get devices 1

-- The server then answers from the first device's datastore, and values go to the second's.
serves_stale_datastore :
    (slave_block replaced.context ≡ some 0) × (get replaced.slave_contexts 1 ≡ some 1)
unfolding restore add_device remove_device trace_request start suppress_slave get_fault get put pop
    has get_or
serves_stale_datastore = (refl, refl)
