-- ===== src/Protocols/Modbus/Traffic.antt =====
-- What the callbacks leave alone, and every state that the adapter can come to.
use ghost_meter.Prelude.{
  ℕ, ◌≡◌, refl, String, Bool, true, false, Option, none, some, List, arith, ◌==◌, ==_iff, nat_eq,
  string_eq, if◌then◌else◌, Bool-cases, inl, inr,
}
use ghost_meter.Dict.{get, put, pop, has-put, has-get}
use ghost_meter.Errors.{Result, ok, err}
use ghost_meter.Floats.{Floats}
use ghost_meter.Simulation.FaultSimulator.{
  FaultConfig, FaultSimulator, get_fault, get_failure_rate, get_delay_seconds,
}
use ghost_meter.Protocols.Base.{DeviceStats}
use ghost_meter.Protocols.Modbus.{
  Pymodbus, Pdu, Adapter, change_stats, record_write, drop_request, drop_at_rate,
  apply_request_fault, request_of, trace_request, is_write, count_request, count_error, succeed,
  delay_response, apply_response_fault, response_of, trace_response, write_block, update_slave,
  update_register, suppress_slave,
}
use ghost_meter.Protocols.Modbus.Registry.{
  SameTables, SameTables-refl, SameTables-trans, untouched-SameTables, suppress_slave-SameTables,
}

module _ {R C : Type 0} ⦃F : Floats R⦄ ⦃P : Pymodbus C⦄ where
  -- An abstract first part: a split on a test of two states that both keep the tables.
  either-SameTables :
      {a b c : Adapter R C} (test : Bool)
      → SameTables a b
      → SameTables a c
      → SameTables a (if test then b else c)
  either-SameTables true p q = p
  either-SameTables false p q = q

  changed-SameTables :
      (a : Adapter R C) (d : ℕ) (f : DeviceStats R → DeviceStats R) (found : Option (DeviceStats R))
      → get a.device_stats d ≡ found
      → SameTables a (elim found [
        | none ↦ a
        | some stats ↦ record a { device_stats = put a.device_stats d (f stats) }
      ])
  changed-SameTables a d f none e = SameTables-refl a
  changed-SameTables a d f (some stats) e = record {
    device_to_slave = refl;
    slave_to_device = refl;
    slave_contexts = refl;
    device_registers = refl;
    stats = λ k.
        ground (arith, has-put a.device_stats d k (f stats), has-get a.device_stats d, ==_iff k d);
  }

  change_stats-SameTables :
      (a : Adapter R C) (d : ℕ) (f : DeviceStats R → DeviceStats R)
      → SameTables a (change_stats a d f)
  unfolding change_stats
  change_stats-SameTables a d f = changed-SameTables a d f (get a.device_stats d) refl

  record_write-SameTables :
      (a : Adapter R C) (d : ℕ) (pdu : Pdu) (now : ℕ) → SameTables a (record_write a d pdu now)
  unfolding record_write
  record_write-SameTables a d pdu now =
      untouched-SameTables a a.context a.request_start_times a.blocks a.restores _

  drop_request-SameTables : (a : Adapter R C) (d s : ℕ) → SameTables a (drop_request a d s)
  unfolding drop_request
  drop_request-SameTables a d s =
      SameTables-trans (suppress_slave-SameTables a s)
        (change_stats-SameTables (suppress_slave a s) d count_error)

  drop_at_rate-SameTables :
      (a : Adapter R C) (d s : ℕ) (roll : R) (rate : Result R)
      → SameTables a (drop_at_rate a d s roll rate).0
  unfolding drop_at_rate
  drop_at_rate-SameTables a d s roll (ok rate) =
      either-SameTables (F.lt roll rate) (drop_request-SameTables a d s) (SameTables-refl a)
  drop_at_rate-SameTables a d s roll (err e) = SameTables-refl a

  apply_request_fault-SameTables :
      (a : Adapter R C) (d s : ℕ) (roll : R) (fault : Option (FaultConfig R))
      → SameTables a (apply_request_fault a d s roll fault).0
  unfolding apply_request_fault
  apply_request_fault-SameTables a d s roll none = SameTables-refl a
  apply_request_fault-SameTables a d s roll (some fault) =
      elim (Bool-cases (fault.fault_type == "timeout")) [
        | inl timeout ↦ rw timeout (drop_request-SameTables a d s)
        | inr o ↦ elim (Bool-cases (fault.fault_type == "intermittent")) [
          | inl dice ↦
              rw (o, dice) (drop_at_rate-SameTables a d s roll (get_failure_rate fault.params))
          | inr o' ↦ rw (o, o') (SameTables-refl a)
        ]
      ]

  request_of-SameTables :
      (a : Adapter R C) (faults : FaultSimulator R) (pdu : Pdu) (clock : R) (now : ℕ) (roll : R)
      (found : Option ℕ)
      → SameTables a (request_of a faults pdu clock now roll found).0
  unfolding request_of
  request_of-SameTables a faults pdu clock now roll none = SameTables-refl a
  request_of-SameTables a faults pdu clock now roll (some d) =
      let times = put a.request_start_times pdu.transaction_id clock in
      let began : Adapter R C = record a { request_start_times = times } in
      let counted = change_stats began d count_request in
      let to_counted =
        SameTables-trans (untouched-SameTables a a.context times a.blocks a.restores a.tracker)
          (change_stats-SameTables began d count_request) in
      SameTables-trans
        (either-SameTables (is_write pdu.function_code)
          (SameTables-trans to_counted (record_write-SameTables counted d pdu now)) to_counted)
        (apply_request_fault-SameTables _ d pdu.dev_id roll (get_fault faults (some d)))

  succeed-SameTables :
      (a : Adapter R C) (d : ℕ) (began : Option R) (clock : R)
      → SameTables a (succeed a d began clock)
  unfolding succeed
  succeed-SameTables a d none clock = SameTables-refl a
  succeed-SameTables a d (some began) clock = change_stats-SameTables a d _

  delay_response-SameTables :
      (a : Adapter R C) (d : ℕ) (began : Option R) (clock : R) (seconds : Result R)
      → SameTables a (delay_response a d began clock seconds).0
  unfolding delay_response
  delay_response-SameTables a d began clock (ok seconds) = succeed-SameTables a d began clock
  delay_response-SameTables a d began clock (err e) = SameTables-refl a

  apply_response_fault-SameTables :
      (a : Adapter R C) (d : ℕ) (began : Option R) (clock : R) (fault : Option (FaultConfig R))
      → SameTables a (apply_response_fault a d began clock fault).0
  unfolding apply_response_fault
  apply_response_fault-SameTables a d began clock none = succeed-SameTables a d began clock
  apply_response_fault-SameTables a d began clock (some fault) =
      elim (Bool-cases (fault.fault_type == "delay")) [
        | inl slow ↦
            rw slow (delay_response-SameTables a d began clock (get_delay_seconds fault.params))
        | inr o ↦ elim (Bool-cases (fault.fault_type == "exception")) [
          | inl replaced ↦ rw (o, replaced) (change_stats-SameTables a d count_error)
          | inr o' ↦ rw (o, o') (succeed-SameTables a d began clock)
        ]
      ]

  response_of-SameTables :
      (a : Adapter R C) (faults : FaultSimulator R) (pdu : Pdu) (clock : R) (found : Option ℕ)
      → SameTables a (response_of a faults pdu clock found).0
  unfolding response_of
  response_of-SameTables a faults pdu clock none = SameTables-refl a
  response_of-SameTables a faults pdu clock (some d) =
      SameTables-trans
        (untouched-SameTables a a.context (pop a.request_start_times pdu.transaction_id) a.blocks
          a.restores a.tracker)
        (apply_response_fault-SameTables _ d (get a.request_start_times pdu.transaction_id) clock
          (get_fault faults (some d)))

  write_block-SameTables :
      (a : Adapter R C) (address fc : ℕ) (block : Option ℕ) (c : Option C) (words : Result (List ℕ))
      → SameTables a (write_block a address fc block c words).0
  unfolding write_block
  write_block-SameTables a address fc none c words = SameTables-refl a
  write_block-SameTables a address fc (some block) none words = SameTables-refl a
  write_block-SameTables a address fc (some block) (some c) (err e) = SameTables-refl a
  write_block-SameTables a address fc (some block) (some c) (ok words) =
      untouched-SameTables a a.context a.request_start_times _ a.restores a.tracker

  update_slave-SameTables :
      (a : Adapter R C) (address fc : ℕ) (value : R) (data_type byte_order : String)
      (found : Option ℕ)
      → SameTables a (update_slave a address fc value data_type byte_order found).0
  unfolding update_slave
  update_slave-SameTables a address fc value data_type byte_order none = SameTables-refl a
  update_slave-SameTables a address fc value data_type byte_order (some s) =
      write_block-SameTables a address fc (get a.slave_contexts s) _ _

  pub trace_request-SameTables :
      (a : Adapter R C) (faults : FaultSimulator R) (pdu : Pdu) (clock : R) (now : ℕ) (roll : R)
      → SameTables a (trace_request a faults pdu clock now roll).0
  unfolding trace_request
  trace_request-SameTables a faults pdu clock now roll =
      request_of-SameTables a faults pdu clock now roll (get a.slave_to_device pdu.dev_id)

  pub trace_response-SameTables :
      (a : Adapter R C) (faults : FaultSimulator R) (pdu : Pdu) (clock : R)
      → SameTables a (trace_response a faults pdu clock).0
  unfolding trace_response
  trace_response-SameTables a faults pdu clock =
      response_of-SameTables a faults pdu clock (get a.slave_to_device pdu.dev_id)

  pub update_register-SameTables :
      (a : Adapter R C) (d address fc : ℕ) (value : R) (data_type byte_order : String)
      → SameTables a (update_register a d address fc value data_type byte_order).0
  unfolding update_register
  update_register-SameTables a d address fc value data_type byte_order =
      update_slave-SameTables a address fc value data_type byte_order (get a.device_to_slave d)
