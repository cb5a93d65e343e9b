-- ===== src/Services/Templates/Stored.antt =====
-- The templates in the database: create, update, delete, clone and import, with the constraints
-- of backend/app/models/template.py.
pub mod Invariant
pub mod Changes
pub mod Kept
use ghost_meter.Prelude.{
  ℕ, ◌+◌, String, Bool, true, false, not, ◌&&◌, Option, none, some, List, [], ◌∷◌, ◌++◌, map, ltb,
  ◌==◌, nat_eq, string_eq, if◌then◌else◌,
}
use ghost_meter.Errors.{
  Result, ok, err, validation, not_found, conflict, forbidden, integrity_error, raise_if, ◌>>=◌,
  ◌>>◌,
}
use ghost_meter.Table.{find, write, remove, count}
use ghost_meter.Services.Templates.{
  TemplateData, validate_no_address_overlap, build_registers, clone_data, commit_registers,
  create_template,
}

pub record DeviceTemplate (R : Type 0) : Type 0 where
  pub id : ℕ
  pub is_builtin : Bool
  pub content : TemplateData R

-- `devices` are the devices' template ids.
pub record Database (R : Type 0) : Type 0 where
  pub templates : List (DeviceTemplate R)
  pub devices : List ℕ
  pub next_id : ℕ

module _ {R : Type 0} where
  unfoldable pub has_id : ℕ → DeviceTemplate R → Bool
  has_id template_id template = template.id == template_id

  unfoldable pub named : String → DeviceTemplate R → Bool
  named name template = template.content.name == name

  template_found : Option (DeviceTemplate R) → Result (DeviceTemplate R)
  template_found none = err (not_found "TEMPLATE_NOT_FOUND")
  template_found (some template) = ok template

  -- `get_template`
  pub stored_template : List (DeviceTemplate R) → ℕ → Result (DeviceTemplate R)
  unfolding template_found has_id
  stored_template templates template_id = template_found (find (has_id template_id) templates)

  unfoldable pub create_stored : Database R → TemplateData R → Bool → Result (Database R)
  create_stored db request is_builtin = do
    content ← create_template (map (λ t. t.content.name) db.templates) request
    ok (record db {
      templates =
          db.templates
          ++ record { id = db.next_id; is_builtin = is_builtin; content = content } ∷ [];
      next_id = db.next_id + 1;
    })

  replace : TemplateData R → DeviceTemplate R → DeviceTemplate R
  replace request template = record template {
    content = record request { registers = build_registers request.registers };
  }

  -- The flush after the registers are cleared writes the name, and is outside the `try`.
  flush_name : List (DeviceTemplate R) → ℕ → String → Result (Unit {0})
  unfolding has_id named
  flush_name templates template_id name =
      raise_if (ltb 0 (count (λ t. named name t && not (has_id template_id t)) templates))
        integrity_error

  unfoldable pub update_template : Database R → ℕ → TemplateData R → Result (Database R)
  unfolding stored_template flush_name replace
  update_template db template_id request = do
    template ← stored_template db.templates template_id
    raise_if template.is_builtin (forbidden "BUILTIN_TEMPLATE_IMMUTABLE")
    if request.protocol == "modbus_tcp"
        then validate_no_address_overlap request.registers
        else ok tt
    flush_name db.templates template_id request.name
    commit_registers (build_registers request.registers)
    ok (record db { templates = write (has_id template_id) (replace request) db.templates })

  unfoldable pub delete_template : Database R → ℕ → Result (Database R)
  unfolding stored_template
  delete_template db template_id = do
    template ← stored_template db.templates template_id
    raise_if (ltb 0 (count (λ used. used == template_id) db.devices)) (conflict "TEMPLATE_IN_USE")
    raise_if template.is_builtin (forbidden "BUILTIN_TEMPLATE_IMMUTABLE")
    ok (record db { templates = remove (has_id template_id) db.templates })

  unfoldable pub clone_template : Database R → ℕ → Option String → Result (Database R)
  unfolding stored_template
  clone_template db template_id new_name = do
    source ← stored_template db.templates template_id
    create_stored db (clone_data source.content new_name) false

  unfoldable pub import_template : Database R → TemplateData R → Result (Database R)
  import_template db request = create_stored db request false

pub data Call (R : Type 0) : Type 0 where
  create : TemplateData R → Bool → Call R
  update : ℕ → TemplateData R → Call R
  delete : ℕ → Call R
  clone : ℕ → Option String → Call R
  import_from : TemplateData R → Call R

module _ {R : Type 0} where
  unfoldable pub perform : Database R → Call R → Result (Database R)
  perform db (create request is_builtin) = create_stored db request is_builtin
  perform db (update template_id request) = update_template db template_id request
  perform db (delete template_id) = delete_template db template_id
  perform db (clone template_id new_name) = clone_template db template_id new_name
  perform db (import_from request) = import_template db request

  -- A call that raises is rolled back.
  abbrev pub committed : Database R → Result (Database R) → Database R
  committed db (ok after) = after
  committed db (err e) = db

  unfoldable pub perform_all : Database R → List (Call R) → Database R
  unfolding perform
  perform_all db [] = db
  perform_all db (call ∷ calls) = perform_all (committed db (perform db call)) calls
