-- ===== src/Services/Templates.antt =====
-- backend/app/services/template_service.py, with the register schema of
-- backend/app/schemas/template.py: the address check, and what create, clone and export copy.
pub mod Overlap
pub mod Copies
pub mod Stored
use ghost_meter.Prelude.{
  ℕ, ◌+◌, ◌-◌, String, Bool, not, ◌&&◌, ◌||◌, Option, none, some, List, [], ◌∷◌, map, leb, ltb,
  contains, ◌==◌, nat_eq, string_eq, if◌then◌else◌,
}
use Prim.Native.String.{◌++◌ as ◌<>◌}
use ghost_meter.Prelude.Int.{ℤ}
use ghost_meter.Dict.{Dict, get}
use ghost_meter.Errors.{Result, ok, err, not_found, key_error, validation, raise_if, ◌>>=◌, ◌>>◌}
use ghost_meter.Table.{count}
use ghost_meter.Intervals.{no_overlap}

-- A register definition, as a request gives it and as the table holds it. `R` is `float`.
pub record RegisterDefinition (R : Type 0) : Type 0 where
  pub name : String
  pub address : ℕ
  pub function_code : ℕ
  pub data_type : String
  pub byte_order : String
  pub scale_factor : R
  pub unit : Option String
  pub description : Option String
  pub sort_order : ℤ
  pub oid : Option String

-- DATA_TYPE_REGISTER_COUNT
unfoldable pub register_count : String → Option ℕ
register_count t =
    if t == "int16"
    then some 1
    else if t == "uint16"
    then some 1
    else if t == "int32"
    then some 2
    else if t == "uint32"
    then some 2
    else if t == "float32"
    then some 2
    else if t == "float64"
    then some 4
    else none

-- A tuple of `by_fc`, with the function code that it is filed under.
pub record AddressRange : Type 0 where
  pub function_code : ℕ
  pub name : String
  pub start : ℕ
  pub end : ℕ

-- `end_a >= start_b`
overlaps : AddressRange → AddressRange → Bool
overlaps a b = leb b.start a.end

module _ {R : Type 0} where
  pub range_of : RegisterDefinition R → Option ℕ → Result AddressRange
  range_of reg none = err key_error
  range_of reg (some count) = ok (record {
    function_code = reg.function_code;
    name = reg.name;
    start = reg.address;
    end = reg.address + count - 1;
  })

  -- The first loop.
  pub ranges_of : List (RegisterDefinition R) → Result (List AddressRange)
  unfolding range_of register_count
  ranges_of [] = ok []
  ranges_of (reg ∷ regs) = do
    range ← range_of reg (register_count reg.data_type)
    ranges ← ranges_of regs
    ok (range ∷ ranges)

  unfoldable pub validate_no_address_overlap : List (RegisterDefinition R) → Result (Unit {0})
  unfolding ranges_of overlaps
  validate_no_address_overlap registers = do
    ranges ← ranges_of registers
    raise_if (not (no_overlap (λ r. r.function_code) (λ r. r.start) overlaps ranges)) validation

  -- `_build_registers`
  unfoldable pub build_registers : List (RegisterDefinition R) → List (RegisterDefinition R)
  build_registers = map λ reg. record {
    name = reg.name;
    address = reg.address;
    function_code = reg.function_code;
    data_type = reg.data_type;
    byte_order = reg.byte_order;
    scale_factor = reg.scale_factor;
    unit = reg.unit;
    description = reg.description;
    sort_order = reg.sort_order;
    oid = reg.oid;
  }

abbrev or_name : Option String → String → String
or_name none name = name
or_name (some given) name = if given == "" then name else given

-- TemplateCreate, and the parts of a template that are copied.
pub record TemplateData (R : Type 0) : Type 0 where
  pub name : String
  pub protocol : String
  pub description : Option String
  pub registers : List (RegisterDefinition R)

module _ {R : Type 0} where
  -- `RegisterDefinitionCreate(…)` in clone_template and the dictionary in export_template: the
  -- keyword `oid` is not given, so that it takes its default.
  copy_register : RegisterDefinition R → RegisterDefinition R
  copy_register reg = record {
    name = reg.name;
    address = reg.address;
    function_code = reg.function_code;
    data_type = reg.data_type;
    byte_order = reg.byte_order;
    scale_factor = reg.scale_factor;
    unit = reg.unit;
    description = reg.description;
    sort_order = reg.sort_order;
    oid = none;
  }

  -- The request that clone_template hands to create_template.
  unfoldable pub clone_data : TemplateData R → Option String → TemplateData R
  unfolding copy_register
  clone_data source new_name = record {
    name = or_name new_name ("Copy of " <> source.name);
    protocol = source.protocol;
    description = source.description;
    registers = map copy_register source.registers;
  }

  -- The export, read back by the import route as a TemplateCreate.
  unfoldable pub export_template : TemplateData R → TemplateData R
  unfolding copy_register
  export_template template = record {
    name = template.name;
    protocol = template.protocol;
    description = template.description;
    registers = map copy_register template.registers;
  }

  -- Two registers that uq_register_template_name or uq_register_template_addr_fc forbids.
  same_key : RegisterDefinition R → RegisterDefinition R → Bool
  same_key a b = a.name == b.name || (a.address == b.address && a.function_code == b.function_code)

  -- The commit of a template's registers, whose IntegrityError is a validation error.
  pub commit_registers : List (RegisterDefinition R) → Result (Unit {0})
  unfolding same_key
  commit_registers [] = ok tt
  commit_registers (reg ∷ regs) = do
    raise_if (ltb 0 (count (same_key reg) regs)) validation
    commit_registers regs

  -- What create_template stores, beside templates with `names`: the address check is for Modbus
  -- only.
  unfoldable pub create_template : List String → TemplateData R → Result (TemplateData R)
  unfolding validate_no_address_overlap build_registers
  create_template names request = do
    if request.protocol == "modbus_tcp"
        then validate_no_address_overlap request.registers
        else ok tt
    raise_if (contains request.name names) validation
    commit_registers (build_registers request.registers)
    ok (record request { registers = build_registers request.registers })

module _ {R : Type 0} where
  found_template : Option (TemplateData R) → Result (TemplateData R)
  found_template none = err (not_found "TEMPLATE_NOT_FOUND")
  found_template (some template) = ok template

  -- The query by id.
  unfoldable pub get_template : Dict ℕ (TemplateData R) → ℕ → Result (TemplateData R)
  unfolding found_template
  get_template templates template_id = found_template (get templates template_id)
