-- ===== src/Services/Devices/Creation/Batch.antt =====
-- What a batch creation leaves.
use mathlib.Core.Path.{subst}
use ghost_meter.Prelude.{
  ℕ, ◌+◌, ◌≤◌, ◌≡◌, refl, sym, ap, ◌∙◌, String, Bool, true, false, ◌&&◌, Option, none, some, List,
  [], ◌∷◌, ◌++◌, map, arith, ltb, leb, ◌==◌, nat_eq, inl, inr, ◌⊎◌,
}
use ghost_meter.Errors.{Error, Result, ok, err, integrity_error, raise_if, >>=-eq-ok, >>=-eq-err}
use ghost_meter.Table.{bit, count, count-append}
use ghost_meter.Services.Configurations.{SimulationConfig, SimulationConfigCreate}
use ghost_meter.Services.Profiles.{
  SimulationProfile, is_row, insert_configs, apply_profile_to_device,
}
use ghost_meter.Services.Devices.{DeviceInstance, Database, Outcome, Settings, holds}
use ghost_meter.Services.Devices.Creation.{
  DeviceBatchCreate, batch_create_devices, commit_profiles, apply_profiles, check_batch, batch_at,
  add_devices, resolve_profile, expand, resolve_and_apply_profile,
}
use ghost_meter.Services.Devices.Creation.Runs.{check_batch-IsRun}

-- Every slave id of the request, and no other row, is added on one port, where it was free.
pub record HasBatch (request : DeviceBatchCreate) (before after : List DeviceInstance) (port : ℕ)
    : Type 0 where
  pub in_order : request.slave_id_start ≤ request.slave_id_end
  pub slaves :
      (s p : ℕ)
      → count (holds s p) after
        ≡ count (holds s p) before
          + bit (p == port && (leb request.slave_id_start s && leb s request.slave_id_end))
  pub free :
      (s : ℕ)
      → request.slave_id_start ≤ s
      → s ≤ request.slave_id_end
      → count (holds s port) before ≡ 0

raise_if-eq-err : (b : Bool) (x e : Error) → raise_if b x ≡ err e → e ≡ x
raise_if-eq-err true x e h = cc
raise_if-eq-err false x e h = cc

module _ {R : Type 0} where
  pub rows_of : Option (SimulationProfile R) → ℕ → List (SimulationConfig R)
  rows_of none device_id = []
  rows_of (some profile) device_id =
      map (λ cfg. record { device_id = device_id; config = cfg }) profile.configs

  -- After the rows stand those of the profile that is resolved, for one device after the other.
  pub Filled :
      List (SimulationProfile R)
      → DeviceBatchCreate
      → List DeviceInstance
      → List (SimulationConfig R)
      → List (SimulationConfig R)
      → Type 0
  Filled profiles request [] rows after = after ≡ rows
  Filled profiles request (device ∷ devices) rows after =
      (profile : Option (SimulationProfile R)) × (resolve_profile profiles request.template_id
          request.profile_id
        ≡ ok profile)
      × Filled profiles request devices (rows ++ rows_of profile device.id) after

  append_nil : (rows : List (SimulationConfig R)) → rows ++ [] ≡ rows
  append_nil [] = refl
  append_nil (row ∷ rows) = ap (◌∷◌ row) (append_nil rows)

  append_one :
      (rows : List (SimulationConfig R)) (row : SimulationConfig R)
      (more : List (SimulationConfig R))
      → (rows ++ row ∷ []) ++ more ≡ rows ++ row ∷ more
  append_one [] row more = refl
  append_one (first ∷ rows) row more = ap (◌∷◌ first) (append_one rows row more)

  insert_configs-eq-ok :
      (device_id : ℕ) (configs : List (SimulationConfigCreate R))
      (rows after : List (SimulationConfig R))
      → insert_configs device_id configs rows ≡ ok after
      → rows ++ map (λ cfg. record { device_id = device_id; config = cfg }) configs ≡ after
  unfolding insert_configs
  insert_configs-eq-ok device_id [] rows after e =
      append_nil rows ∙ ap (λ r. elim r [ ok x ↦ x | err _ ↦ rows ]) e
  insert_configs-eq-ok device_id (cfg ∷ configs) rows after e =
      let (_, _, e1) =
        >>=-eq-ok
          (raise_if (ltb 0 (count (is_row device_id cfg.register_name) rows)) integrity_error) _
          e in
      sym (append_one rows _ _) ∙ insert_configs-eq-ok device_id configs (rows ++ _ ∷ []) after e1

  insert_configs-eq-err :
      (device_id : ℕ) (configs : List (SimulationConfigCreate R)) (rows : List (SimulationConfig R))
      (e : Error)
      → insert_configs device_id configs rows ≡ err e
      → e ≡ integrity_error
  unfolding insert_configs
  insert_configs-eq-err device_id [] rows e h = cc
  insert_configs-eq-err device_id (cfg ∷ configs) rows e h =
      let clash = ltb 0 (count (is_row device_id cfg.register_name) rows) in
      elim (>>=-eq-err (raise_if clash integrity_error) _ h) [
        | inl first ↦ raise_if-eq-err clash integrity_error e first
        | inr (_, _, rest) ↦ insert_configs-eq-err device_id configs (rows ++ _ ∷ []) e rest
      ]

  expand-eq-ok :
      (profile : Option (SimulationProfile R)) (device_id : ℕ)
      (rows after : List (SimulationConfig R))
      → expand profile device_id rows ≡ ok after
      → rows ++ rows_of profile device_id ≡ after
  unfolding expand apply_profile_to_device rows_of
  expand-eq-ok none device_id rows after e =
      append_nil rows ∙ ap (λ r. elim r [ ok x ↦ x | err _ ↦ rows ]) e
  expand-eq-ok (some profile) device_id rows after e =
      insert_configs-eq-ok device_id profile.configs rows after e

  expand-eq-err :
      (profile : Option (SimulationProfile R)) (device_id : ℕ) (rows : List (SimulationConfig R))
      (e : Error)
      → expand profile device_id rows ≡ err e
      → e ≡ integrity_error
  unfolding expand apply_profile_to_device
  expand-eq-err none device_id rows e h = cc
  expand-eq-err (some profile) device_id rows e h =
      insert_configs-eq-err device_id profile.configs rows e h

module _ {R W : Type 0} where
  apply_profiles-Filled :
      (db : Database R W) (request : DeviceBatchCreate) (devices : List DeviceInstance)
      (rows after : List (SimulationConfig R))
      → apply_profiles db request devices rows ≡ ok after
      → Filled db.profiles request devices rows after
  unfolding apply_profiles resolve_and_apply_profile Filled
  apply_profiles-Filled db request [] rows after e =
      sym (ap (λ r. elim r [ ok x ↦ x | err _ ↦ rows ]) e)
  apply_profiles-Filled db request (device ∷ devices) rows after e =
      let (applied, e1, e2) =
        >>=-eq-ok
          (resolve_and_apply_profile db.profiles request.template_id request.profile_id device.id
            rows)
          _ e in
      let (profile, resolved, e3) =
        >>=-eq-ok (resolve_profile db.profiles request.template_id request.profile_id) _ e1 in
      (
        profile,
        resolved,
        subst (λ x. Filled db.profiles request devices x after)
            (sym (expand-eq-ok profile device.id rows applied e3))
            (apply_profiles-Filled db request devices applied after e2),
      )

  -- Why the profile of a batch cannot be applied: it is not resolved, or its rows are refused.
  abbrev pub Unapplied : Database R W → DeviceBatchCreate → Error → Type 0
  Unapplied db request e =
      (resolve_profile db.profiles request.template_id request.profile_id ≡ err e)
      ⊎ (e ≡ integrity_error)

  apply_profiles-Unapplied :
      (db : Database R W) (request : DeviceBatchCreate) (devices : List DeviceInstance)
      (rows : List (SimulationConfig R)) (e : Error)
      → apply_profiles db request devices rows ≡ err e
      → Unapplied db request e
  unfolding apply_profiles resolve_and_apply_profile
  apply_profiles-Unapplied db request [] rows e h = cc
  apply_profiles-Unapplied db request (device ∷ devices) rows e h =
      elim (>>=-eq-err
        (resolve_and_apply_profile db.profiles request.template_id request.profile_id device.id
          rows)
        _ h) [
          | inl here ↦
              elim (>>=-eq-err (resolve_profile db.profiles request.template_id request.profile_id)
                _ here) [
                  | inl unresolved ↦ inl unresolved
                  | inr (profile, _, refused) ↦ inr (expand-eq-err profile device.id rows e refused)
                ]
          | inr (applied, _, later) ↦ apply_profiles-Unapplied db request devices applied e later
        ]

  -- The three outcomes of a batch: it is refused; the devices are made, with the rows of their
  -- profile; or the devices are made and the call raises after its first commit, without any row.
  pub data Made (request : DeviceBatchCreate) (db : Database R W)
      : Outcome R W (Unit {0}) → Type 0 where
    refused : (e : Error) → Made request db (db, err e)
    made :
        {after : Database R W} (port : ℕ) (built : List DeviceInstance)
        → after.devices ≡ db.devices ++ built
        → HasBatch request db.devices (db.devices ++ built) port
        → Filled db.profiles request built db.simulation_configs after.simulation_configs
        → Made request db (after, ok tt)
    left :
        {after : Database R W} (port : ℕ) (built : List DeviceInstance) (e : Error)
        → after.devices ≡ db.devices ++ built
        → HasBatch request db.devices (db.devices ++ built) port
        → after.simulation_configs ≡ db.simulation_configs
        → Unapplied db request e
        → Made request db (after, err e)

  commit_profiles-Made :
      (db : Database R W) (request : DeviceBatchCreate) (port : ℕ) (built : List DeviceInstance)
      (r : Result (List (SimulationConfig R)))
      → HasBatch request db.devices (db.devices ++ built) port
      → ((rows : List (SimulationConfig R))
          → r ≡ ok rows
          → Filled db.profiles request built db.simulation_configs rows)
      → ((e : Error) → r ≡ err e → Unapplied db request e)
      → Made request db (commit_profiles (add_devices db built) r)
  unfolding commit_profiles add_devices
  commit_profiles-Made db request port built (ok rows) h filled failed =
      made port built refl h (filled rows refl)
  commit_profiles-Made db request port built (err e) h filled failed =
      left port built e refl h refl (failed e refl)

  batch_at-Made :
      (db : Database R W) (request : DeviceBatchCreate) (checked : Result (List DeviceInstance))
      → ((built : List DeviceInstance)
          → checked ≡ ok built
          → (port : ℕ) × HasBatch request db.devices (db.devices ++ built) port)
      → Made request db (batch_at db request checked)
  unfolding batch_at
  batch_at-Made db request (err e) h = refused e
  batch_at-Made db request (ok built) h =
      let (port, has) = h built refl in
      commit_profiles-Made db request port built
        (apply_profiles db request built db.simulation_configs) has
        (λ rows e. apply_profiles-Filled db request built db.simulation_configs rows e)
        (λ e h. apply_profiles-Unapplied db request built db.simulation_configs e h)

  check_batch-HasBatch :
      (str : ℕ → String) (len : String → ℕ) (settings : Settings) (db : Database R W)
      (request : DeviceBatchCreate) (built : List DeviceInstance)
      → check_batch str len settings db request ≡ ok built
      → (port : ℕ) × HasBatch request db.devices (db.devices ++ built) port
  check_batch-HasBatch str len settings db request built e =
      let (port, run, free, in_order) = check_batch-IsRun str len settings db request built e in
      (
        port,
        record {
          in_order = in_order;
          slaves = λ s p. ground (arith, count-append (holds s p) db.devices built, run.slaves s p);
          free = λ s low high. free s low (omega arith);
        },
      )

  -- A batch creation has one of three outcomes. It raises and leaves the database as it was. Or it
  -- adds a device for each slave id of the range, once and on one port, where the id was free, and
  -- no other device, and after the configurations the rows of the resolved profile for each of them
  -- in turn. Or it adds these devices and raises, since the profile is not resolved or its rows are
  -- refused, and leaves the configurations as they were.
  pub batch_create_devices-Made :
      (str : ℕ → String) (len : String → ℕ) (settings : Settings) (db : Database R W)
      (request : DeviceBatchCreate)
      → Made request db (batch_create_devices str len settings db request)
  unfolding batch_create_devices
  batch_create_devices-Made str len settings db request =
      batch_at-Made db request (check_batch str len settings db request)
        (check_batch-HasBatch str len settings db request)
