-- ===== src/Protocols/Manager.antt =====
-- backend/app/protocols/manager.py: the adapters by protocol. What the manager calls of an
-- adapter in the state `A` is the record ProtocolAdapter, where its counters are only reset; a call leaves its state where it raises.
use ghost_meter.Prelude.{
  ℕ, String, Bool, true, false, ◌||◌, ◌≡◌, refl, Option, none, some, List, [], ◌∷◌, ◌==◌, string_eq,
}
use ghost_meter.Dict.{Dict, get, put, get-put}
use ghost_meter.Errors.{Result, ok, err, runtime_error}
use ghost_meter.Protocols.Base.{RegisterInfo}

pub record ProtocolAdapter (A : Type 0) : Type 0 where
  pub start : A → A × Result (Unit {0})
  pub stop : A → A × Result (Unit {0})
  pub add_device : A → ℕ → ℕ → List RegisterInfo → A × Result (Unit {0})
  pub remove_device : A → ℕ → A × Result (Unit {0})
  pub reset_stats : A → ℕ → A

pub record ProtocolManager (A : Type 0) : Type 0 where
  pub adapters : Dict String A
  pub running : Bool

module _ {A : Type 0} ⦃adapter : ProtocolAdapter A⦄ where
  unfoldable pub register_adapter : ProtocolManager A → String → A → ProtocolManager A
  register_adapter m protocol a = record m { adapters = put m.adapters protocol a }

  -- Whether the loop of start_all reaches its end is the second part.
  started :
      String → Dict String A → Dict String A × Bool → A × Result (Unit {0}) → Dict String A × Bool
  started name rest tried (a, ok _) = ((name, a) ∷ tried.0, tried.1)
  started name rest tried (a, err e) = ((name, a) ∷ rest, false)

  start_each : Dict String A → Dict String A × Bool
  unfolding started
  start_each [] = ([], true)
  start_each ((name, a) ∷ rest) = started name rest (start_each rest) (adapter.start a)

  -- A failure leaves the flag as it was.
  unfoldable pub start_all : ProtocolManager A → ProtocolManager A
  unfolding start_each
  start_all m =
      let (adapters, all_started) = start_each m.adapters in
      record { adapters = adapters; running = m.running || all_started }

  -- What an adapter raises is logged.
  stop_each : Dict String A → Dict String A
  stop_each [] = []
  stop_each ((name, a) ∷ rest) = (name, (adapter.stop a).0) ∷ stop_each rest

  unfoldable pub stop_all : ProtocolManager A → ProtocolManager A
  unfolding stop_each
  stop_all m = record { adapters = stop_each m.adapters; running = false }

  store : ProtocolManager A → String → A × Result (Unit {0}) → ProtocolManager A × Result (Unit {0})
  store m protocol (a, r) = (record m { adapters = put m.adapters protocol a }, r)

  add_to :
      ProtocolManager A
      → String
      → ℕ
      → ℕ
      → List RegisterInfo
      → Option A
      → ProtocolManager A × Result (Unit {0})
  unfolding store
  add_to m protocol device_id slave_id registers none = (m, err runtime_error)
  add_to m protocol device_id slave_id registers (some a) =
      store m protocol (adapter.add_device a device_id slave_id registers)

  unfoldable pub add_device :
      ProtocolManager A → String → ℕ → ℕ → List RegisterInfo → ProtocolManager A × Result (Unit {0})
  unfolding add_to
  add_device m protocol device_id slave_id registers =
      add_to m protocol device_id slave_id registers (get m.adapters protocol)

  remove_from : ProtocolManager A → String → ℕ → Option A → ProtocolManager A × Result (Unit {0})
  unfolding store
  remove_from m protocol device_id none = (m, err runtime_error)
  remove_from m protocol device_id (some a) = store m protocol (adapter.remove_device a device_id)

  unfoldable pub remove_device :
      ProtocolManager A → String → ℕ → ProtocolManager A × Result (Unit {0})
  unfolding remove_from
  remove_device m protocol device_id = remove_from m protocol device_id (get m.adapters protocol)

  reset_of : ProtocolManager A → String → ℕ → Option A → ProtocolManager A
  reset_of m protocol device_id none = m
  reset_of m protocol device_id (some a) = record m {
    adapters = put m.adapters protocol (adapter.reset_stats a device_id);
  }

  unfoldable pub reset_stats : ProtocolManager A → String → ℕ → ProtocolManager A
  unfolding reset_of
  reset_stats m protocol device_id = reset_of m protocol device_id (get m.adapters protocol)

  add_to-isolated :
      (m : ProtocolManager A) (protocol : String) (device_id slave_id : ℕ)
      (registers : List RegisterInfo) (o : Option A) (name : String)
      → (name == protocol) ≡ false
      → get (add_to m protocol device_id slave_id registers o).0.adapters name ≡ get m.adapters name
  unfolding add_to store
  add_to-isolated m protocol device_id slave_id registers none name e = refl
  add_to-isolated m protocol device_id slave_id registers (some a) name e = rw (get-put, e) refl

  -- A device that is added to one adapter changes no other.
  pub add_device-isolated :
      (m : ProtocolManager A) (protocol : String) (device_id slave_id : ℕ)
      (registers : List RegisterInfo) (name : String)
      → (name == protocol) ≡ false
      → get (add_device m protocol device_id slave_id registers).0.adapters name
        ≡ get m.adapters name
  unfolding add_device
  add_device-isolated m protocol device_id slave_id registers name e =
      add_to-isolated m protocol device_id slave_id registers (get m.adapters protocol) name e

  remove_from-isolated :
      (m : ProtocolManager A) (protocol : String) (device_id : ℕ) (o : Option A) (name : String)
      → (name == protocol) ≡ false
      → get (remove_from m protocol device_id o).0.adapters name ≡ get m.adapters name
  unfolding remove_from store
  remove_from-isolated m protocol device_id none name e = refl
  remove_from-isolated m protocol device_id (some a) name e = rw (get-put, e) refl

  -- So with a device that is removed.
  pub remove_device-isolated :
      (m : ProtocolManager A) (protocol : String) (device_id : ℕ) (name : String)
      → (name == protocol) ≡ false
      → get (remove_device m protocol device_id).0.adapters name ≡ get m.adapters name
  unfolding remove_device
  remove_device-isolated m protocol device_id name e =
      remove_from-isolated m protocol device_id (get m.adapters protocol) name e
