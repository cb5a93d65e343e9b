-- ===== src/Services/Profiles.antt =====
-- backend/app/services/simulation_profile_service.py: reusable simulation settings of a template,
-- of which one may be the default. The constraints of the table are those that
-- backend/app/models/simulation_profile.py declares.
pub mod Causes
pub mod Counts
pub mod Defaults
use ghost_meter.Prelude.{
  ℕ, zero, suc, ◌+◌, ◌-◌, String, Bool, true, false, not, ◌&&◌, Option, none, some, List, [], ◌∷◌,
  ◌++◌, map, ltb, ◌==◌, nat_eq, string_eq, if◌then◌else◌,
}
use ghost_meter.Dict.{Dict, get}
use ghost_meter.Errors.{
  Result, ok, err, runtime_error, integrity_error, validation, not_found, conflict, forbidden,
  raise_if, ◌>>=◌, ◌>>◌,
}
use ghost_meter.Table.{count}
use ghost_meter.Services.Configurations.{SimulationConfigCreate, SimulationConfig}

pub record SimulationProfile (R : Type 0) : Type 0 where
  pub id : ℕ
  pub template_id : ℕ
  pub name : String
  pub description : Option String
  pub is_builtin : Bool
  pub is_default : Bool
  pub configs : List (SimulationConfigCreate R)

-- The tables: the names of the templates, and the profiles. `next_id` is a fresh identifier.
pub record Database (R : Type 0) : Type 0 where
  pub templates : Dict ℕ String
  pub profiles : List (SimulationProfile R)
  pub next_id : ℕ

pub record SimulationProfileCreate (R : Type 0) : Type 0 where
  pub template_id : ℕ
  pub name : String
  pub description : Option String
  pub is_default : Bool
  pub configs : List (SimulationConfigCreate R)

pub record SimulationProfileUpdate (R : Type 0) : Type 0 where
  pub name : Option String
  pub description : Option String
  pub is_default : Option Bool
  pub configs : Option (List (SimulationConfigCreate R))

template_found : Option String → Result String
template_found none = err (not_found "TEMPLATE_NOT_FOUND")
template_found (some name) = ok name

-- `_get_template_or_404`
get_template_or_404 : Dict ℕ String → ℕ → Result String
unfolding template_found
get_template_or_404 templates template_id = template_found (get templates template_id)

abbrev given : {A : Type 0} → Option A → A → A
given none a = a
given (some b) a = b

abbrev is_given : {A : Type 0} → Option A → Bool
is_given none = false
is_given (some _) = true

module _ {R : Type 0} where
  pub find_profile : List (SimulationProfile R) → ℕ → Option (SimulationProfile R)
  find_profile [] profile_id = none
  find_profile (p ∷ profiles) profile_id =
      if p.id == profile_id then some p else find_profile profiles profile_id

  profile_found : Option (SimulationProfile R) → Result (SimulationProfile R)
  profile_found none = err (not_found "PROFILE_NOT_FOUND")
  profile_found (some p) = ok p

  -- `_get_profile_or_404`
  unfoldable pub get_profile : List (SimulationProfile R) → ℕ → Result (SimulationProfile R)
  unfolding find_profile profile_found
  get_profile profiles profile_id = profile_found (find_profile profiles profile_id)

  unfoldable pub is_default_of : ℕ → SimulationProfile R → Bool
  is_default_of template_id p = p.template_id == template_id && p.is_default

  unfoldable pub count_default : ℕ → List (SimulationProfile R) → ℕ
  unfolding is_default_of
  count_default template_id [] = 0
  count_default template_id (p ∷ profiles) =
      let rest = count_default template_id profiles in
      if is_default_of template_id p then suc rest else rest

  unfoldable pub count_named : ℕ → String → List (SimulationProfile R) → ℕ
  count_named template_id name [] = 0
  count_named template_id name (p ∷ profiles) =
      let rest = count_named template_id name profiles in
      if p.template_id == template_id && p.name == name then suc rest else rest

  -- `_commit_or_raise_conflict`, for the row that was written: the unique constraint on the name,
  -- and the unique index on the default.
  pub commit_or_raise_conflict : ℕ → String → List (SimulationProfile R) → Result (Unit {0})
  unfolding count_default count_named
  commit_or_raise_conflict template_id name profiles =
      if ltb 1 (count_named template_id name profiles)
      then err (conflict "PROFILE_NAME_CONFLICT")
      else if ltb 1 (count_default template_id profiles)
      then err validation
      else ok tt

  pub clear_default : ℕ → SimulationProfile R → SimulationProfile R
  unfolding is_default_of
  clear_default template_id p =
      if is_default_of template_id p then record p { is_default = false } else p

  -- `_clear_existing_default`; `scalar_one_or_none` raises where two rows are found.
  clear_existing_default : ℕ → List (SimulationProfile R) → Result (List (SimulationProfile R))
  unfolding count_default clear_default
  clear_existing_default template_id profiles =
      if ltb 1 (count_default template_id profiles)
      then err runtime_error
      else ok (map (clear_default template_id) profiles)

  pub cleared_if : Bool → ℕ → List (SimulationProfile R) → Result (List (SimulationProfile R))
  unfolding clear_existing_default
  cleared_if true template_id profiles = clear_existing_default template_id profiles
  cleared_if false template_id profiles = ok profiles

  new_profile : ℕ → SimulationProfileCreate R → SimulationProfile R
  new_profile id request = record {
    id = id;
    template_id = request.template_id;
    name = request.name;
    description = request.description;
    is_builtin = false;
    is_default = request.is_default;
    configs = request.configs;
  }

  unfoldable pub create_profile : Database R → SimulationProfileCreate R → Result (Database R)
  unfolding get_template_or_404 cleared_if new_profile commit_or_raise_conflict
  create_profile db request = do
    _ ← get_template_or_404 db.templates request.template_id
    cleared ← cleared_if request.is_default request.template_id db.profiles
    let added = cleared ++ new_profile db.next_id request ∷ []
    commit_or_raise_conflict request.template_id request.name added
    ok (record db { profiles = added; next_id = db.next_id + 1 })

  -- The row that is found is written.
  pub write :
      ℕ
      → (SimulationProfile R → SimulationProfile R)
      → List (SimulationProfile R)
      → List (SimulationProfile R)
  write profile_id f [] = []
  write profile_id f (p ∷ profiles) =
      let rest = write profile_id f profiles in
      if p.id == profile_id then f p ∷ profiles else p ∷ rest

  apply_update : SimulationProfileUpdate R → SimulationProfile R → SimulationProfile R
  apply_update request p = record p {
    name = given request.name p.name;
    description = elim request.description [ none ↦ p.description | some d ↦ some d ];
    is_default = given request.is_default p.is_default;
    configs = given request.configs p.configs;
  }

  -- The part of an update that the select of `_clear_existing_default` flushes.
  rename : SimulationProfileUpdate R → SimulationProfile R → SimulationProfile R
  rename request p = record p {
    name = given request.name p.name;
    description = elim request.description [ none ↦ p.description | some d ↦ some d ];
  }

  -- The flush meets the unique constraint on the name, outside the `try`.
  unfoldable pub taken_at_select :
      SimulationProfileUpdate R → SimulationProfile R → List (SimulationProfile R) → Bool
  unfolding rename count_named write
  taken_at_select request p profiles =
      given request.is_default false
      && ltb 1 (
          count_named p.template_id (given request.name p.name)
            (write p.id (rename request) profiles))

  pub find_default : ℕ → List (SimulationProfile R) → Option (SimulationProfile R)
  unfolding is_default_of
  find_default template_id [] = none
  find_default template_id (p ∷ profiles) =
      if is_default_of template_id p then some p else find_default template_id profiles

  is_after : ℕ → Option (SimulationProfile R) → Bool
  is_after profile_id none = false
  is_after profile_id (some existing) = ltb profile_id existing.id

  -- The commit writes the rows in the order of their ids, and the unique index on the default is
  -- checked at each: the profile is made the default before the existing one is cleared.
  unfoldable pub set_before_cleared :
      SimulationProfileUpdate R → SimulationProfile R → List (SimulationProfile R) → Bool
  unfolding find_default is_after
  set_before_cleared request p profiles =
      given request.is_default false && is_after p.id (find_default p.template_id profiles)

  unfoldable pub update_profile : Database R → ℕ → SimulationProfileUpdate R → Result (Database R)
  unfolding cleared_if write apply_update commit_or_raise_conflict
  update_profile db profile_id request = do
    p ← get_profile db.profiles profile_id
    raise_if (p.is_builtin && is_given request.configs) (forbidden "BUILTIN_PROFILE_IMMUTABLE")
    raise_if (taken_at_select request p db.profiles) integrity_error
    cleared ← cleared_if (given request.is_default false) p.template_id db.profiles
    raise_if (set_before_cleared request p db.profiles) validation
    let written = write profile_id (apply_update request) cleared
    commit_or_raise_conflict p.template_id (given request.name p.name) written
    ok (record db { profiles = written })

  pub remove_profile : ℕ → List (SimulationProfile R) → List (SimulationProfile R)
  remove_profile profile_id [] = []
  remove_profile profile_id (p ∷ profiles) =
      let rest = remove_profile profile_id profiles in
      if p.id == profile_id then profiles else p ∷ rest

  unfoldable pub delete_profile : Database R → ℕ → Result (Database R)
  unfolding remove_profile
  delete_profile db profile_id = do
    p ← get_profile db.profiles profile_id
    raise_if p.is_builtin (forbidden "BUILTIN_PROFILE_IMMUTABLE")
    ok (record db { profiles = remove_profile profile_id db.profiles })

  pub is_row : ℕ → String → SimulationConfig R → Bool
  is_row device_id name row = row.device_id == device_id && row.config.register_name == name

  -- The rows that a profile expands into. The flush, which is not in a `try`, meets
  -- uq_sim_config_device_register.
  unfoldable pub insert_configs :
      ℕ
      → List (SimulationConfigCreate R)
      → List (SimulationConfig R)
      → Result (List (SimulationConfig R))
  unfolding is_row
  insert_configs device_id [] rows = ok rows
  insert_configs device_id (cfg ∷ configs) rows = do
    raise_if (ltb 0 (count (is_row device_id cfg.register_name) rows)) integrity_error
    insert_configs device_id configs (rows ++ record { device_id = device_id; config = cfg } ∷ [])

  unfoldable pub apply_profile_to_device :
      SimulationProfile R → ℕ → List (SimulationConfig R) → Result (List (SimulationConfig R))
  unfolding insert_configs
  apply_profile_to_device profile device_id rows = insert_configs device_id profile.configs rows

  unfoldable pub get_default_profile :
      List (SimulationProfile R) → ℕ → Result (Option (SimulationProfile R))
  unfolding count_default find_default
  get_default_profile profiles template_id =
      if ltb 1 (count_default template_id profiles)
      then err runtime_error
      else ok (find_default template_id profiles)

-- SimulationProfileExport
pub record SimulationProfileExport (R : Type 0) : Type 0 where
  pub name : String
  pub description : Option String
  pub template_name : String
  pub configs : List (SimulationConfigCreate R)

module _ {R : Type 0} where
  unfoldable pub export_profile : Database R → ℕ → Result (SimulationProfileExport R)
  export_profile db profile_id = do
    p ← get_profile db.profiles profile_id
    ok (record {
      name = p.name;
      description = p.description;
      template_name = given (get db.templates p.template_id) "";
      configs = p.configs;
    })

  no_configs : List (SimulationConfigCreate R) → Bool
  no_configs [] = true
  no_configs (_ ∷ _) = false

  -- `strip` is Python's `str.strip`.
  unfoldable pub import_profile :
      (String → String) → Database R → ℕ → SimulationProfileExport R → Result (Database R)
  unfolding no_configs
  import_profile strip db template_id request = do
    raise_if (strip request.name == "") validation
    raise_if (no_configs request.configs) validation
    create_profile db (record {
      template_id = template_id;
      name = strip request.name;
      description = request.description;
      is_default = false;
      configs = request.configs;
    })
