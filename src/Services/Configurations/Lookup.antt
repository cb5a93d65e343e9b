-- ===== src/Services/Configurations/Lookup.antt =====
-- What a lookup of a register's configuration finds after each change.
use ghost_meter.Prelude.{
  ℕ, ◌≡◌, ◌↔◌, refl, String, true, false, ◌&&◌, Option, none, some, List, [], ◌∷◌, ◌++◌, arith, All,
  contains, ◌==◌, nat_eq, string_eq, if◌then◌else◌, Bool-cases, inl, inr,
}
use ghost_meter.Dict.{get}
use ghost_meter.Errors.{err, validation}
use ghost_meter.Services.Configurations.{
  SimulationConfigCreate, SimulationConfig, Database, found_or_404, get_device_or_404, all_known,
  none_seen, without_device, rows_of, set_simulation_configs, upsert,
}

module _ {R : Type 0} where
  -- The configuration of a register of a device.
  pub find : List (SimulationConfig R) → ℕ → String → Option (SimulationConfigCreate R)
  find [] device_id name = none
  find (row ∷ rows) device_id name =
      if row.device_id == device_id && row.config.register_name == name
      then some row.config
      else find rows device_id name

  -- The configuration of a register in a request.
  unfoldable pub requested :
      List (SimulationConfigCreate R) → String → Option (SimulationConfigCreate R)
  requested [] name = none
  requested (cfg ∷ configs) name =
      if cfg.register_name == name then some cfg else requested configs name

  abbrev or_else :
      Option (SimulationConfigCreate R)
      → Option (SimulationConfigCreate R)
      → Option (SimulationConfigCreate R)
  or_else none y = y
  or_else (some x) y = some x

  abbrev replaced : Database R → ℕ → List (SimulationConfigCreate R) → Database R
  replaced db device_id configs = record db {
    simulation_configs =
        without_device device_id db.simulation_configs ++ rows_of device_id configs;
  }

  abbrev upserted : Database R → ℕ → String → SimulationConfigCreate R → Database R
  upserted db device_id name cfg = record db {
    simulation_configs = upsert device_id name cfg db.simulation_configs;
  }

  abbrev pub Known : List String → List (SimulationConfigCreate R) → Type 0
  Known names = All (λ cfg. contains cfg.register_name names ≡ true)

  -- No register is named twice.
  abbrev pub Distinct : List (SimulationConfigCreate R) → Type 0
  Distinct [] = Unit
  Distinct (cfg ∷ configs) =
      All (λ other. (other.register_name == cfg.register_name) ≡ false) configs × Distinct configs

  abbrev Unseen : List String → List (SimulationConfigCreate R) → Type 0
  Unseen seen = All (λ cfg. contains cfg.register_name seen ≡ false)

  Unseen-cons :
      (name : String) (seen : List String) (configs : List (SimulationConfigCreate R))
      → Unseen (name ∷ seen) configs
        ↔ (All (λ other. (other.register_name == name) ≡ false) configs × Unseen seen configs)
  Unseen-cons name seen [] = (λ h. (tt, tt), λ h. tt)
  Unseen-cons name seen (cfg ∷ configs) = (
    λ (first, h).
        let (others, rest) = (Unseen-cons name seen configs).0 h in
        ((ground arith, others), (ground arith, rest)),
    λ ((apart, others), (unseen, rest)).
        (ground arith, (Unseen-cons name seen configs).1 (others, rest)),
  )

  all_known_iff :
      (names : List String) (configs : List (SimulationConfigCreate R))
      → (all_known names configs ≡ true) ↔ Known names configs
  unfolding all_known
  all_known_iff names [] = (λ h. tt, λ h. refl)
  all_known_iff names (cfg ∷ configs) = (
    λ h. (ground arith, (all_known_iff names configs).0 (ground arith)),
    λ (first, h). rw first ((all_known_iff names configs).1 h),
  )

  none_seen_iff :
      (seen : List String) (configs : List (SimulationConfigCreate R))
      → (none_seen seen configs ≡ true) ↔ (Unseen seen configs × Distinct configs)
  unfolding none_seen
  none_seen_iff seen [] = (λ h. (tt, tt), λ h. refl)
  none_seen_iff seen (cfg ∷ configs) = (
    λ h.
        let (unseen, distinct) =
          (none_seen_iff (cfg.register_name ∷ seen) configs).0 (ground arith) in
        let (others, rest) = (Unseen-cons cfg.register_name seen configs).0 unseen in
        ((ground arith, rest), (others, distinct)),
    λ ((first, rest), (others, distinct)). rw first (
        (none_seen_iff (cfg.register_name ∷ seen) configs).1
          ((Unseen-cons cfg.register_name seen configs).1 (others, rest), distinct)),
  )

  -- Configurations that do not all name registers of the template, or that name one twice, are
  -- refused.
  pub set_simulation_configs_refuses :
      (db : Database R) (device_id : ℕ) (names : List String)
      (configs : List (SimulationConfigCreate R))
      → get db.device_registers device_id ≡ some names
      → ¬ (Known names configs × Distinct configs)
      → set_simulation_configs db device_id configs ≡ err validation
  unfolding set_simulation_configs get_device_or_404 found_or_404
  set_simulation_configs_refuses db device_id names configs found bad =
      elim (Bool-cases (all_known names configs)) [
        | inl known ↦ elim (Bool-cases (none_seen [] configs)) [
          | inl unseen ↦
              absurd (
                bad
                  ((all_known_iff names configs).0 known, ((none_seen_iff [] configs).0 unseen).1))
          | inr repeated ↦ rw (found, known, repeated)
        ]
        | inr unknown ↦ rw (found, unknown)
      ]
