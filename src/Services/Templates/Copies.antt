-- ===== src/Services/Templates/Copies.antt =====
-- The registers and the address check of create_template.
use ghost_meter.Prelude.{◌≡◌, refl, ap, String, List, [], ◌∷◌, ◌==◌, string_eq, if◌then◌else◌}
use ghost_meter.Errors.{Result, ok}
use ghost_meter.Services.Templates.{
  RegisterDefinition, validate_no_address_overlap, build_registers,
}

module _ {R : Type 0} where
  pub build_registers-eq : (regs : List (RegisterDefinition R)) → build_registers regs ≡ regs
  unfolding build_registers
  build_registers-eq [] = refl
  build_registers-eq (reg ∷ regs) = ap (◌∷◌ reg) (build_registers-eq regs)

  -- The address check of create_template.
  abbrev pub checked : String → List (RegisterDefinition R) → Result (Unit {0})
  checked protocol regs =
      if protocol == "modbus_tcp" then validate_no_address_overlap regs else ok tt
