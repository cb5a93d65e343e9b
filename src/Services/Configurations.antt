-- ===== src/Services/Configurations.antt =====
-- backend/app/services/simulation_service.py: how the registers of a device are simulated, in the
-- database. The foreign key of a device to its template gives each device the register names of
-- its template.
pub mod Lookup
use ghost_meter.Prelude.{
  ℕ, String, Bool, true, false, not, ◌&&◌, Option, none, some, List, [], ◌∷◌, ◌++◌, map, contains,
  ◌==◌, nat_eq, string_eq, if◌then◌else◌,
}
use ghost_meter.Dict.{Dict, get}
use ghost_meter.Errors.{Result, ok, err, validation, not_found, raise_if, ◌>>=◌, ◌>>◌}
use ghost_meter.Floats.{Value}

pub record SimulationConfigCreate (R : Type 0) : Type 0 where
  pub register_name : String
  pub data_mode : String
  pub mode_params : Dict String (Value R)
  pub is_enabled : Bool
  pub update_interval_ms : ℕ

-- A row of simulation_configs.
pub record SimulationConfig (R : Type 0) : Type 0 where
  pub device_id : ℕ
  pub config : SimulationConfigCreate R

-- The tables, the devices that the engine simulates, and the devices that it was told to reload,
-- the latest first.
pub record Database (R : Type 0) : Type 0 where
  pub device_registers : Dict ℕ (List String)
  pub simulation_configs : List (SimulationConfig R)
  pub simulating : List ℕ
  pub reloaded : List ℕ

found_or_404 : Option (List String) → Result (List String)
found_or_404 none = err (not_found "DEVICE_NOT_FOUND")
found_or_404 (some names) = ok names

-- `_get_device_or_404`, and the register names of the device's template.
get_device_or_404 : Dict ℕ (List String) → ℕ → Result (List String)
unfolding found_or_404
get_device_or_404 devices device_id = found_or_404 (get devices device_id)

module _ {R : Type 0} where
  -- `_reload_if_running`
  reload_if_running : ℕ → Database R → Database R
  reload_if_running device_id db =
      if contains device_id db.simulating
      then record db { reloaded = device_id ∷ db.reloaded }
      else db

  all_known : List String → List (SimulationConfigCreate R) → Bool
  all_known names [] = true
  all_known names (cfg ∷ configs) = contains cfg.register_name names && all_known names configs

  -- The loop over `seen`.
  none_seen : List String → List (SimulationConfigCreate R) → Bool
  none_seen seen [] = true
  none_seen seen (cfg ∷ configs) =
      not (contains cfg.register_name seen) && none_seen (cfg.register_name ∷ seen) configs

  without_device : ℕ → List (SimulationConfig R) → List (SimulationConfig R)
  without_device device_id [] = []
  without_device device_id (row ∷ rows) =
      let rest = without_device device_id rows in
      if row.device_id == device_id then rest else row ∷ rest

  rows_of : ℕ → List (SimulationConfigCreate R) → List (SimulationConfig R)
  rows_of device_id = map λ cfg. record { device_id = device_id; config = cfg }

  unfoldable pub set_simulation_configs :
      Database R → ℕ → List (SimulationConfigCreate R) → Result (Database R)
  unfolding get_device_or_404 all_known none_seen without_device rows_of reload_if_running
  set_simulation_configs db device_id configs = do
    names ← get_device_or_404 db.device_registers device_id
    raise_if (not (all_known names configs)) validation
    raise_if (not (none_seen [] configs)) validation
    ok (
        reload_if_running device_id (record db {
          simulation_configs =
              without_device device_id db.simulation_configs ++ rows_of device_id configs;
        }))

  -- The row that exists is changed in place, or a row is added; the name is the path's.
  upsert :
      ℕ → String → SimulationConfigCreate R → List (SimulationConfig R) → List (SimulationConfig R)
  upsert device_id register_name cfg [] =
      record { device_id = device_id; config = record cfg { register_name = register_name } } ∷ []
  upsert device_id register_name cfg (row ∷ rows) =
      let rest = upsert device_id register_name cfg rows in
      if row.device_id == device_id && row.config.register_name == register_name
      then record row { config = record cfg { register_name = row.config.register_name } } ∷ rows
      else row ∷ rest

  unfoldable pub update_simulation_config :
      Database R → ℕ → String → SimulationConfigCreate R → Result (Database R)
  unfolding get_device_or_404 upsert reload_if_running
  update_simulation_config db device_id register_name cfg = do
    names ← get_device_or_404 db.device_registers device_id
    raise_if (not (contains register_name names)) validation
    ok (
        reload_if_running device_id (record db {
          simulation_configs = upsert device_id register_name cfg db.simulation_configs;
        }))

  unfoldable pub delete_simulation_configs : Database R → ℕ → Result (Database R)
  unfolding get_device_or_404 without_device reload_if_running
  delete_simulation_configs db device_id = do
    names ← get_device_or_404 db.device_registers device_id
    ok (
        reload_if_running device_id
          (record db { simulation_configs = without_device device_id db.simulation_configs }))
