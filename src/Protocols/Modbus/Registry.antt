-- ===== src/Protocols/Modbus/Registry.antt =====
-- The registry of slaves through any sequence of calls and callbacks.
use ghost_meter.Prelude.{
  ℕ, ◌≡◌, refl, sym, ◌∙◌, false, Option, none, some, List, [], ◌∷◌, arith, ==_iff, nat_eq,
  string_eq, Bool-cases, inl, inr,
}
use ghost_meter.Dict.{Dict, get, put, pop, has, has-pop}
use ghost_meter.Floats.{Floats}
use ghost_meter.Simulation.WriteTracker.{WriteTracker}
use ghost_meter.Protocols.Base.{RegisterInfo, new_stats}
use ghost_meter.Protocols.Modbus.Tables.{
  AreInverse, put-AreInverse, pop-AreInverse, SameKeys, put-SameKeys, pop-SameKeys,
  put-pop-SameKeys, has_of_get, get_of_has,
}
use ghost_meter.Protocols.Modbus.{
  hide, put_back, task, without, on_context, Pymodbus, Adapter, start, stop, remove_device,
  remove_slave, do_remove_device, suppress_slave, restore, add_device, do_add_device, enter,
  roll_back,
}

-- The tables agree: devices and slaves are in bijection, every slave has a datastore, and every
-- device its registers and counters.
pub record IsConsistent {R C : Type 0} (a : Adapter R C) : Type 0 where
  pub slaves : AreInverse a.device_to_slave a.slave_to_device
  pub contexts : SameKeys a.slave_contexts a.slave_to_device
  pub registers : SameKeys a.device_registers a.device_to_slave
  pub counted : SameKeys a.device_stats a.device_to_slave

module _ {R C : Type 0} where
  -- What the callbacks may change without touching the registry.
  pub record SameTables (a b : Adapter R C) : Type 0 where
    pub device_to_slave : a.device_to_slave ≡ b.device_to_slave
    pub slave_to_device : a.slave_to_device ≡ b.slave_to_device
    pub slave_contexts : a.slave_contexts ≡ b.slave_contexts
    pub device_registers : a.device_registers ≡ b.device_registers
    pub stats : (d : ℕ) → has a.device_stats d ≡ has b.device_stats d

  pub SameTables-IsConsistent :
      (a b : Adapter R C) → SameTables a b → IsConsistent a → IsConsistent b
  SameTables-IsConsistent a b same h = record {
    slaves = rw (← same.device_to_slave, ← same.slave_to_device) h.slaves;
    contexts = λ s. rw (← same.slave_contexts, ← same.slave_to_device) (h.contexts s);
    registers = λ d. rw (← same.device_registers, ← same.device_to_slave) (h.registers d);
    counted = λ d. rw (← same.stats d, ← same.device_to_slave) (h.counted d);
  }

  -- A change of any other field.
  pub untouched-SameTables :
      (a : Adapter R C) (context : Option (Dict ℕ ℕ)) (times : Dict ℕ R) (blocks : Dict ℕ C)
      (restores : List (ℕ × ℕ)) (tracker : WriteTracker)
      → SameTables a (record a {
        context = context;
        request_start_times = times;
        blocks = blocks;
        restores = restores;
        tracker = tracker;
      })
  untouched-SameTables a context times blocks restores tracker = record {
    device_to_slave = refl;
    slave_to_device = refl;
    slave_contexts = refl;
    device_registers = refl;
    stats = λ d. refl;
  }

  pub SameTables-refl : (a : Adapter R C) → SameTables a a
  SameTables-refl a = record {
    device_to_slave = refl;
    slave_to_device = refl;
    slave_contexts = refl;
    device_registers = refl;
    stats = λ d. refl;
  }

  pub SameTables-trans : {a b c : Adapter R C} → SameTables a b → SameTables b c → SameTables a c
  SameTables-trans p q = record {
    device_to_slave = p.device_to_slave ∙ q.device_to_slave;
    slave_to_device = p.slave_to_device ∙ q.slave_to_device;
    slave_contexts = p.slave_contexts ∙ q.slave_contexts;
    device_registers = p.device_registers ∙ q.device_registers;
    stats = λ d. p.stats d ∙ q.stats d;
  }

  hide-SameTables :
      (a : Adapter R C) (s : ℕ) (block : Option ℕ) (context : Option (Dict ℕ ℕ))
      → SameTables a (hide a s block context)
  unfolding hide
  hide-SameTables a s none context = SameTables-refl a
  hide-SameTables a s (some block) none = SameTables-refl a
  hide-SameTables a s (some block) (some devices) =
      untouched-SameTables a (some (pop devices s)) a.request_start_times a.blocks
        ((s, block) ∷ a.restores) a.tracker

  pub suppress_slave-SameTables : (a : Adapter R C) (s : ℕ) → SameTables a (suppress_slave a s)
  unfolding suppress_slave
  suppress_slave-SameTables a s = hide-SameTables a s (get a.slave_contexts s) a.context

  put_back-SameTables : (a : Adapter R C) (t : Option (ℕ × ℕ)) → SameTables a (put_back a t)
  unfolding put_back
  put_back-SameTables a none = SameTables-refl a
  put_back-SameTables a (some (s, block)) = elim (Bool-cases (has a.slave_contexts s)) [
    | inl used ↦ rw used (
        untouched-SameTables a (on_context (λ devices. put devices s block) a.context)
          a.request_start_times a.blocks a.restores a.tracker)
    | inr free ↦ rw free (SameTables-refl a)
  ]

  pub restore-SameTables : (a : Adapter R C) (i : ℕ) → SameTables a (restore a i)
  unfolding restore
  restore-SameTables a i =
      let p =
        put_back-SameTables (record a { restores = without i a.restores }) (task i a.restores) in
      record {
        device_to_slave = p.device_to_slave;
        slave_to_device = p.slave_to_device;
        slave_contexts = p.slave_contexts;
        device_registers = p.device_registers;
        stats = p.stats;
      }

  pub start-SameTables : (a : Adapter R C) → SameTables a (start a)
  unfolding start
  start-SameTables a =
      untouched-SameTables a (some []) a.request_start_times a.blocks a.restores a.tracker

  pub empty-IsConsistent :
      (a : Adapter R C)
      → a.device_to_slave ≡ []
      → a.slave_to_device ≡ []
      → a.slave_contexts ≡ []
      → a.device_registers ≡ []
      → a.device_stats ≡ []
      → IsConsistent a
  unfolding get has
  empty-IsConsistent a e1 e2 e3 e4 e5 = record {
    slaves = rw (e1, e2) (record { there = λ i j x. cc; back = λ i j x. cc });
    contexts = rw (e2, e3) (λ k. refl);
    registers = rw (e1, e4) (λ k. refl);
    counted = rw (e1, e5) (λ k. refl);
  }

  pub stop-IsConsistent : (a : Adapter R C) → IsConsistent (stop a)
  unfolding stop
  stop-IsConsistent a = empty-IsConsistent (stop a) refl refl refl refl refl

  removed-IsConsistent :
      (a : Adapter R C) (d : ℕ) (found : Option ℕ)
      → get a.device_to_slave d ≡ found
      → IsConsistent a
      → IsConsistent (record (remove_slave a d found) {
        device_stats = pop (remove_slave a d found).device_stats d;
      })
  unfolding remove_slave
  removed-IsConsistent a d none e h = record {
    slaves = h.slaves;
    contexts = h.contexts;
    registers = h.registers;
    counted = λ k. ground (
      arith,
      has-pop a.device_stats d k,
      h.counted k,
      has_of_get a.device_to_slave d e,
      ==_iff k d,
    );
  }
  removed-IsConsistent a d (some s) e h = record {
    slaves = pop-AreInverse a.device_to_slave a.slave_to_device d s e h.slaves;
    contexts = pop-SameKeys a.slave_contexts a.slave_to_device s h.contexts;
    registers = pop-SameKeys a.device_registers a.device_to_slave d h.registers;
    counted = pop-SameKeys a.device_stats a.device_to_slave d h.counted;
  }

  pub remove_device-IsConsistent :
      (a : Adapter R C) (d : ℕ) → IsConsistent a → IsConsistent (remove_device a d)
  unfolding remove_device do_remove_device
  remove_device-IsConsistent a d h = removed-IsConsistent a d (get a.device_to_slave d) refl h

module _ {R C : Type 0} ⦃F : Floats R⦄ ⦃P : Pymodbus C⦄ where
  rolled_back-IsConsistent :
      (a : Adapter R C) (d : ℕ)
      → get a.device_to_slave d ≡ none
      → IsConsistent a
      → IsConsistent {R = R} {C = C}
          (record a { device_stats = pop (put a.device_stats d new_stats) d })
  rolled_back-IsConsistent a d fresh h = record {
    slaves = h.slaves;
    contexts = h.contexts;
    registers = h.registers;
    counted =
        put-pop-SameKeys a.device_stats a.device_to_slave d new_stats
          (has_of_get a.device_to_slave d fresh) h.counted;
  }

  enter-IsConsistent :
      (a : Adapter R C) (d s : ℕ) (regs : List RegisterInfo) (devices : Dict ℕ ℕ)
      → get a.device_to_slave d ≡ none
      → has a.slave_contexts s ≡ false
      → IsConsistent a
      → IsConsistent
          (enter (record a { device_stats = put a.device_stats d new_stats }) d s regs devices)
  unfolding enter
  enter-IsConsistent a d s regs devices fresh free h = record {
    slaves =
        put-AreInverse a.device_to_slave a.slave_to_device d s fresh
          (get_of_has a.slave_to_device s (sym (h.contexts s) ∙ free)) h.slaves;
    contexts = put-SameKeys a.slave_contexts a.slave_to_device s a.next_block d h.contexts;
    registers = put-SameKeys a.device_registers a.device_to_slave d regs s h.registers;
    counted = put-SameKeys a.device_stats a.device_to_slave d new_stats s h.counted;
  }

  added-IsConsistent :
      (a : Adapter R C) (d s : ℕ) (regs : List RegisterInfo) (context : Option (Dict ℕ ℕ))
      → get a.device_to_slave d ≡ none
      → IsConsistent a
      → IsConsistent
          (roll_back
            (record a { device_stats = put a.device_stats d new_stats })
            d
            (do_add_device
              (record a { device_stats = put a.device_stats d new_stats })
              d
              s
              regs
              context)).0
  unfolding do_add_device roll_back
  added-IsConsistent a d s regs none fresh h = rolled_back-IsConsistent a d fresh h
  added-IsConsistent a d s regs (some devices) fresh h =
      elim (Bool-cases (has a.slave_contexts s)) [
        | inl used ↦ rw used (rolled_back-IsConsistent a d fresh h)
        | inr free ↦ rw free (enter-IsConsistent a d s regs devices fresh free h)
      ]

  pub add_device-IsConsistent :
      (a : Adapter R C) (d s : ℕ) (regs : List RegisterInfo)
      → get a.device_to_slave d ≡ none
      → IsConsistent a
      → IsConsistent (add_device a d s regs).0
  unfolding add_device
  add_device-IsConsistent a d s regs fresh h = added-IsConsistent a d s regs a.context fresh h
