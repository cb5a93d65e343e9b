-- ===== src/Protocols/Modbus.antt =====
-- `ModbusTcpAdapter` of backend/app/protocols/modbus_tcp.py, with add_device and remove_device of
-- its base class. A slave's datastore is shared between the adapter's table and the server's, so
-- the tables hold references into `blocks`.
pub mod Tables
pub mod Registry
pub mod Traffic
pub mod Lifecycle
use ghost_meter.Prelude.{
  ℕ, zero, suc, ◌+◌, max, String, Bool, true, false, ◌&&◌, ◌||◌, Option, none, some, List, [], ◌∷◌,
  map, ◌==◌, nat_eq, string_eq, if◌then◌else◌,
}
use ghost_meter.Dict.{Dict, get, get_or, put, pop, has}
use ghost_meter.Errors.{Error, Result, ok, err, runtime_error, value_error, key_error}
use ghost_meter.Floats.{Floats, Value, integer}
use ghost_meter.Prelude.Int.{ℤ, pos}
use ghost_meter.Services.Templates.{register_count}
use ghost_meter.Simulation.FaultSimulator.{
  FaultConfig, FaultSimulator, get_fault, get_failure_rate, get_delay_seconds,
}
use ghost_meter.Simulation.WriteTracker.{WriteTracker, WriteEvent, record_event, clear}
use ghost_meter.Protocols.Base.{RegisterInfo, DeviceStats, new_stats}
use ghost_meter.Protocols.Encoding.{encode_value}

-- What the adapter takes from pymodbus, whose datastore of a slave is `C`, and from Python.
pub record Pymodbus (C : Type 0) : Type 0 where
  -- `ModbusDeviceContext(hr=…, ir=…)`, zeroed blocks of two sizes
  pub new_context : ℕ → ℕ → C
  pub set_values : C → ℕ → ℕ → List ℕ → C
  pub str : ℕ → String

-- A request or a response, as the trace callback sees it.
pub record Pdu : Type 0 where
  pub dev_id : ℕ
  pub transaction_id : ℕ
  pub function_code : ℕ
  pub address : ℕ
  pub registers : List ℕ
  pub bits : List Bool

-- The adapter's state; `context` is the server's table, once it is started.
pub record Adapter (R C : Type 0) : Type 0 where
  pub context : Option (Dict ℕ ℕ)
  pub device_stats : Dict ℕ (DeviceStats R)
  pub device_to_slave : Dict ℕ ℕ
  pub slave_to_device : Dict ℕ ℕ
  pub slave_contexts : Dict ℕ ℕ
  pub device_registers : Dict ℕ (List RegisterInfo)
  pub request_start_times : Dict ℕ R
  pub blocks : Dict ℕ C
  pub next_block : ℕ
  -- the slaves that wait for `_restore`, with the datastore that it holds
  pub restores : List (ℕ × ℕ)
  pub tracker : WriteTracker

abbrev count_or : Option ℕ → ℕ
count_or none = 1
count_or (some n) = n

-- `end_addr`
end_addr : RegisterInfo → ℕ
end_addr reg = reg.address + count_or (register_count reg.data_type) + 1

-- The loop over the registers.
sizes : ℕ → ℕ → List RegisterInfo → ℕ × ℕ
unfolding end_addr
sizes hr ir [] = (hr, ir)
sizes hr ir (reg ∷ regs) =
    if reg.function_code == 3
    then sizes (max hr (end_addr reg)) ir regs
    else if reg.function_code == 4
    then sizes hr (max ir (end_addr reg)) regs
    else sizes hr ir regs

on_context : (Dict ℕ ℕ → Dict ℕ ℕ) → Option (Dict ℕ ℕ) → Option (Dict ℕ ℕ)
on_context f none = none
on_context f (some devices) = some (f devices)

-- `_lookup_register_name`
find_name : List RegisterInfo → ℕ → Option String
find_name [] address = none
find_name (reg ∷ regs) address =
    if reg.function_code == 3 && reg.address == address then reg.name else find_name regs address

-- `_MODBUS_WRITE_OPS`; the callback passes these function codes only.
operation_of : ℕ → String
operation_of fc =
    if fc == 5
    then "Write Coil"
    else if fc == 6
    then "Write Register"
    else if fc == 15
    then "Write Coils"
    else "Write Registers"

clear_tracker : WriteTracker → Dict ℕ ℕ → WriteTracker
clear_tracker t [] = t
clear_tracker t ((device_id, _) ∷ d) = clear_tracker (clear t device_id) d

task : ℕ → List (ℕ × ℕ) → Option (ℕ × ℕ)
task i [] = none
task zero (t ∷ ts) = some t
task (suc i) (t ∷ ts) = task i ts

without : ℕ → List (ℕ × ℕ) → List (ℕ × ℕ)
without i [] = []
without zero (t ∷ ts) = ts
without (suc i) (t ∷ ts) = t ∷ without i ts

is_write : ℕ → Bool
is_write fc = fc == 5 || fc == 6 || fc == 15 || fc == 16

module _ {R C : Type 0} where
  lookup_register_name : Adapter R C → ℕ → ℕ → ℕ → Option String
  unfolding find_name
  lookup_register_name a device_id function_code address =
      if function_code == 6 || function_code == 16
      then find_name (get_or a.device_registers device_id []) address
      else none

  unfoldable pub start : Adapter R C → Adapter R C
  start a = record a { context = some [] }

  unfoldable pub stop : Adapter R C → Adapter R C
  unfolding clear_tracker
  stop a = record a {
    context = none;
    tracker = clear_tracker a.tracker a.device_to_slave;
    device_to_slave = [];
    slave_contexts = [];
    device_registers = [];
    slave_to_device = [];
    device_stats = [];
    request_start_times = [];
  }

  remove_slave : Adapter R C → ℕ → Option ℕ → Adapter R C
  unfolding on_context
  remove_slave a device_id none = a
  remove_slave a device_id (some slave_id) = record a {
    device_to_slave = pop a.device_to_slave device_id;
    slave_to_device = pop a.slave_to_device slave_id;
    slave_contexts = pop a.slave_contexts slave_id;
    device_registers = pop a.device_registers device_id;
    tracker = clear a.tracker device_id;
    context = on_context (λ devices. pop devices slave_id) a.context;
  }

  do_remove_device : Adapter R C → ℕ → Adapter R C
  unfolding remove_slave
  do_remove_device a device_id = remove_slave a device_id (get a.device_to_slave device_id)

  unfoldable pub remove_device : Adapter R C → ℕ → Adapter R C
  unfolding do_remove_device
  remove_device a device_id =
      let removed = do_remove_device a device_id in
      record removed { device_stats = pop removed.device_stats device_id }

  hide : Adapter R C → ℕ → Option ℕ → Option (Dict ℕ ℕ) → Adapter R C
  hide a slave_id (some block) (some devices) = record a {
    context = some (pop devices slave_id);
    restores = (slave_id, block) ∷ a.restores;
  }
  hide a slave_id none context = a
  hide a slave_id (some block) none = a

  -- `_suppress_slave`
  unfoldable pub suppress_slave : Adapter R C → ℕ → Adapter R C
  unfolding hide
  suppress_slave a slave_id = hide a slave_id (get a.slave_contexts slave_id) a.context

  -- The end of `_restore`.
  put_back : Adapter R C → Option (ℕ × ℕ) → Adapter R C
  unfolding on_context
  put_back a none = a
  put_back a (some (slave_id, block)) =
      if has a.slave_contexts slave_id
      then record a { context = on_context (λ devices. put devices slave_id block) a.context }
      else a

  -- `_restore`: the `i`-th of the waiting tasks wakes.
  unfoldable pub restore : Adapter R C → ℕ → Adapter R C
  unfolding put_back task without
  restore a i = put_back (record a { restores = without i a.restores }) (task i a.restores)

  unfoldable pub get_device_id_for_slave : Adapter R C → ℕ → Option ℕ
  get_device_id_for_slave a slave_id = get a.slave_to_device slave_id

-- The state after a call, and what it returned or raised: an exception undoes nothing.
abbrev pub Outcome : Type 0 → Type 0 → Type 0 → Type 0
Outcome R C A = Adapter R C × Result A

-- What the callback does to a response: it may sleep first, for the given seconds, and it may
-- replace the response by an exception with the given code.
pub data Response (R : Type 0) : Type 0 where
  unchanged : Response R
  delayed : R → Response R
  exception_code : Value R → Response R

module _ {R : Type 0} where
  count_request : DeviceStats R → DeviceStats R
  count_request stats = record stats { request_count = stats.request_count + 1 }

  count_error : DeviceStats R → DeviceStats R
  count_error stats = record stats { error_count = stats.error_count + 1 }

  code_or_default : Option (Value R) → Value R
  code_or_default none = integer (pos 4)
  code_or_default (some v) = v

module _ {R : Type 0} ⦃F : Floats R⦄ where
  count_success : R → DeviceStats R → DeviceStats R
  count_success elapsed_ms stats = record stats {
    success_count = stats.success_count + 1;
    total_response_ms = F.add stats.total_response_ms elapsed_ms;
  }

module _ {R C : Type 0} ⦃F : Floats R⦄ ⦃P : Pymodbus C⦄ where
  enter : Adapter R C → ℕ → ℕ → List RegisterInfo → Dict ℕ ℕ → Adapter R C
  unfolding sizes
  enter a device_id slave_id regs devices =
      let (hr_size, ir_size) = sizes 1 1 regs in
      record a {
        context = some (put devices slave_id a.next_block);
        slave_contexts = put a.slave_contexts slave_id a.next_block;
        blocks = put a.blocks a.next_block (P.new_context hr_size ir_size);
        next_block = a.next_block + 1;
        device_to_slave = put a.device_to_slave device_id slave_id;
        slave_to_device = put a.slave_to_device slave_id device_id;
        device_registers = put a.device_registers device_id regs;
      }

  -- `_do_add_device`, which raises before it changes anything.
  do_add_device : Adapter R C → ℕ → ℕ → List RegisterInfo → Option (Dict ℕ ℕ) → Result (Adapter R C)
  unfolding enter
  do_add_device a device_id slave_id regs none = err runtime_error
  do_add_device a device_id slave_id regs (some devices) =
      if has a.slave_contexts slave_id
      then err value_error
      else ok (enter a device_id slave_id regs devices)

  roll_back : Adapter R C → ℕ → Result (Adapter R C) → Outcome R C (Unit {0})
  roll_back a device_id (ok added) = (added, ok tt)
  roll_back a device_id (err e) = (record a { device_stats = pop a.device_stats device_id }, err e)

  unfoldable pub add_device : Adapter R C → ℕ → ℕ → List RegisterInfo → Outcome R C (Unit {0})
  unfolding do_add_device roll_back
  add_device a device_id slave_id regs =
      let counted : Adapter R C = record a {
        device_stats = put a.device_stats device_id new_stats;
      } in
      roll_back counted device_id (do_add_device counted device_id slave_id regs a.context)

  write_block : Adapter R C → ℕ → ℕ → Option ℕ → Option C → Result (List ℕ) → Outcome R C (Unit {0})
  write_block a address function_code (some block) (some c) (ok words) =
      (record a { blocks = put a.blocks block (P.set_values c function_code address words) }, ok tt)
  write_block a address function_code (some block) (some c) (err e) = (a, err e)
  write_block a address function_code (some block) none words = (a, err key_error)
  write_block a address function_code none c words = (a, err key_error)

  block_of : Adapter R C → Option ℕ → Option C
  block_of a none = none
  block_of a (some block) = get a.blocks block

  update_slave : Adapter R C → ℕ → ℕ → R → String → String → Option ℕ → Outcome R C (Unit {0})
  unfolding write_block block_of
  update_slave a address function_code value data_type byte_order none = (a, err value_error)
  update_slave a address function_code value data_type byte_order (some slave_id) =
      let block = get a.slave_contexts slave_id in
      write_block a address function_code block (block_of a block)
        (encode_value value data_type byte_order)

  unfoldable pub update_register :
      Adapter R C → ℕ → ℕ → ℕ → R → String → String → Outcome R C (Unit {0})
  unfolding update_slave
  update_register a device_id address function_code value data_type byte_order =
      update_slave a address function_code value data_type byte_order
        (get a.device_to_slave device_id)

  -- `_record_write`, at the time `now`.
  record_write : Adapter R C → ℕ → Pdu → ℕ → Adapter R C
  unfolding lookup_register_name operation_of
  record_write a device_id pdu now = record a {
    tracker = record_event a.tracker device_id (record {
      timestamp = now;
      operation = operation_of pdu.function_code;
      address = pdu.address;
      values =
          if pdu.function_code == 6 || pdu.function_code == 16
          then map P.str pdu.registers
          else map (λ b. P.str (if b then 1 else 0)) pdu.bits;
      register_name = lookup_register_name a device_id pdu.function_code pdu.address;
    });
  }

  change_stats : Adapter R C → ℕ → (DeviceStats R → DeviceStats R) → Adapter R C
  change_stats a device_id f = elim (get a.device_stats device_id) [
    | none ↦ a
    | some stats ↦ record a { device_stats = put a.device_stats device_id (f stats) }
  ]

  drop_request : Adapter R C → ℕ → ℕ → Adapter R C
  unfolding change_stats count_error
  drop_request a device_id slave_id = change_stats (suppress_slave a slave_id) device_id count_error

  drop_at_rate : Adapter R C → ℕ → ℕ → R → Result R → Outcome R C (Unit {0})
  unfolding drop_request
  drop_at_rate a device_id slave_id roll (ok rate) =
      (if F.lt roll rate then drop_request a device_id slave_id else a, ok tt)
  drop_at_rate a device_id slave_id roll (err e) = (a, err e)

  apply_request_fault : Adapter R C → ℕ → ℕ → R → Option (FaultConfig R) → Outcome R C (Unit {0})
  unfolding drop_at_rate
  apply_request_fault a device_id slave_id roll none = (a, ok tt)
  apply_request_fault a device_id slave_id roll (some fault) =
      if fault.fault_type == "timeout"
      then (drop_request a device_id slave_id, ok tt)
      else if fault.fault_type == "intermittent"
      then drop_at_rate a device_id slave_id roll (get_failure_rate fault.params)
      else (a, ok tt)

  request_of : Adapter R C → FaultSimulator R → Pdu → R → ℕ → R → Option ℕ → Outcome R C (Unit {0})
  unfolding apply_request_fault change_stats count_request record_write is_write
  request_of a faults pdu clock now roll none = (a, ok tt)
  request_of a faults pdu clock now roll (some device_id) =
      let started : Adapter R C = record a {
        request_start_times = put a.request_start_times pdu.transaction_id clock;
      } in
      let counted = change_stats started device_id count_request in
      let written =
        if is_write pdu.function_code then record_write counted device_id pdu now else counted in
      apply_request_fault written device_id pdu.dev_id roll (get_fault faults (some device_id))

  -- The callback at a request: the monotonic clock, the time of day and the dice are arguments.
  unfoldable pub trace_request :
      Adapter R C → FaultSimulator R → Pdu → R → ℕ → R → Outcome R C (Unit {0})
  unfolding request_of
  trace_request a faults pdu clock now roll =
      request_of a faults pdu clock now roll (get a.slave_to_device pdu.dev_id)

  succeed : Adapter R C → ℕ → Option R → R → Adapter R C
  unfolding change_stats count_success
  succeed a device_id none clock = a
  succeed a device_id (some began) clock =
      change_stats a device_id (count_success (F.mul (F.sub clock began) (F.literal 1000 1)))

  delay_response : Adapter R C → ℕ → Option R → R → Result R → Outcome R C (Response R)
  unfolding succeed
  delay_response a device_id began clock (ok seconds) =
      (succeed a device_id began clock, ok (delayed seconds))
  delay_response a device_id began clock (err e) = (a, err e)

  apply_response_fault :
      Adapter R C → ℕ → Option R → R → Option (FaultConfig R) → Outcome R C (Response R)
  unfolding delay_response change_stats count_error code_or_default
  apply_response_fault a device_id began clock none =
      (succeed a device_id began clock, ok unchanged)
  apply_response_fault a device_id began clock (some fault) =
      if fault.fault_type == "delay"
      then delay_response a device_id began clock (get_delay_seconds fault.params)
      else if fault.fault_type == "exception"
      then (
        change_stats a device_id count_error,
        ok (exception_code (code_or_default (get fault.params "exception_code"))),
      )
      else (succeed a device_id began clock, ok unchanged)

  response_of : Adapter R C → FaultSimulator R → Pdu → R → Option ℕ → Outcome R C (Response R)
  unfolding apply_response_fault
  response_of a faults pdu clock none = (a, ok unchanged)
  response_of a faults pdu clock (some device_id) =
      apply_response_fault
        (record a { request_start_times = pop a.request_start_times pdu.transaction_id }) device_id
        (get a.request_start_times pdu.transaction_id) clock (get_fault faults (some device_id))

  -- The callback at a response; `clock` is the monotonic clock after the sleep.
  unfoldable pub trace_response :
      Adapter R C → FaultSimulator R → Pdu → R → Outcome R C (Response R)
  unfolding response_of
  trace_response a faults pdu clock =
      response_of a faults pdu clock (get a.slave_to_device pdu.dev_id)
