-- ===== src/Services/Templates/Stored/Invariant.antt =====
-- What is kept of the templates, and that a creation keeps it.
use mathlib.Core.Path.{subst}
use ghost_meter.Prelude.{
  ℕ, ◌+◌, ◌≤◌, ◌<◌, ◌≡◌, refl, sym, ap, ◌∙◌, String, Bool, false, some, List, [], ◌∷◌, ◌++◌, All,
  All-append, map, arith, contains, ◌==◌, ==_iff, nat_eq, string_eq, Bool-cases, inl, inr,
}
use ghost_meter.Errors.{ok, err, validation, raise_if, raise_if-eq-ok, >>=-eq-ok}
use ghost_meter.Table.{find, count, count-append, find-append}
use ghost_meter.Services.Templates.{
  TemplateData, validate_no_address_overlap, build_registers, commit_registers, create_template,
}
use ghost_meter.Services.Templates.Overlap.{KnownTypes, PairwiseDisjoint, validate_iff_disjoint}
use ghost_meter.Services.Templates.Copies.{checked, build_registers-eq}
use ghost_meter.Services.Templates.Stored.{
  DeviceTemplate, Database, has_id, named, create_stored, Call, create, update, delete, clone,
  import_from, committed,
}

module _ {R : Type 0} where
  -- Registers of known types, that share no address where the protocol is Modbus.
  pub record IsServed (template : DeviceTemplate R) : Type 0 where
    pub known : KnownTypes template.content.registers
    pub apart :
        template.content.protocol ≡ "modbus_tcp" → PairwiseDisjoint template.content.registers

  pub record IsKept (db : Database R) : Type 0 where
    pub one_name : (name : String) → count (named name) db.templates ≤ 1
    pub one_id : (i : ℕ) → count (has_id i) db.templates ≤ 1
    pub fresh : (i : ℕ) → db.next_id ≤ i → count (has_id i) db.templates ≡ 0
    pub served : All IsServed db.templates
    pub present :
        (i : ℕ)
        → 0 < count (λ used. used == i) db.devices
        → (template : DeviceTemplate R) × (find (has_id i) db.templates ≡ some template)

  -- The schema of a request: every register is of a known type.
  unfoldable pub Asked : Call R → Type 0
  Asked (create request is_builtin) = KnownTypes request.registers
  Asked (update template_id request) = KnownTypes request.registers
  Asked (delete template_id) = Unit
  Asked (clone template_id new_name) = Unit
  Asked (import_from request) = KnownTypes request.registers

  pub checked-Disjoint :
      (request : TemplateData R) (u : Unit {0})
      → KnownTypes request.registers
      → checked request.protocol request.registers ≡ ok u
      → request.protocol ≡ "modbus_tcp"
      → PairwiseDisjoint request.registers
  checked-Disjoint request tt known e modbus =
      let passed : validate_no_address_overlap request.registers ≡ ok tt = rw modbus at e in
      (validate_iff_disjoint request.registers known).0.0 passed

  contains-count :
      (name : String) (rows : List (DeviceTemplate R))
      → contains name (map (λ t. t.content.name) rows) ≡ false
      → count (named name) rows ≡ 0
  unfolding count named
  contains-count name [] e = refl
  contains-count name (row ∷ rows) e =
      ground (
        arith,
        contains-count name rows,
        ==_iff name row.content.name,
        ==_iff row.content.name name,
      )

  -- What create_template gives, and what it has checked.
  create_template-eq-ok :
      (names : List String) (request content : TemplateData R)
      → create_template names request ≡ ok content
      → KnownTypes request.registers
      → (content ≡ request)
        × (contains request.name names ≡ false)
        × (request.protocol ≡ "modbus_tcp" → PairwiseDisjoint request.registers)
  unfolding create_template
  create_template-eq-ok names request content e known =
      let (u, passed, e1) = >>=-eq-ok (checked request.protocol request.registers) _ e in
      let (v, free, e2) = >>=-eq-ok (raise_if (contains request.name names) validation) _ e1 in
      let (_, _, e3) = >>=-eq-ok (commit_registers (build_registers request.registers)) _ e2 in
      let same : record request { registers = build_registers request.registers } ≡ content =
        ap
          (λ r. elim r [
            | ok c ↦ c
            | err _ ↦ record request { registers = build_registers request.registers }
          ])
          e3 in
      (
        sym same
            ∙ ap (λ regs. record request { registers = regs })
                (build_registers-eq request.registers),
        raise_if-eq-ok _ _ v free,
        checked-Disjoint request u known passed,
      )

  added-IsKept :
      (db : Database R) (request : TemplateData R) (is_builtin : Bool)
      → KnownTypes request.registers
      → (request.protocol ≡ "modbus_tcp" → PairwiseDisjoint request.registers)
      → contains request.name (map (λ t. t.content.name) db.templates) ≡ false
      → IsKept db
      → IsKept (record db {
        templates =
            db.templates
            ++ record { id = db.next_id; is_builtin = is_builtin; content = request } ∷ [];
        next_id = db.next_id + 1;
      })
  unfolding count named has_id
  added-IsKept db request is_builtin known disjoint free h =
      let t : DeviceTemplate R = record {
        id = db.next_id;
        is_builtin = is_builtin;
        content = request;
      } in
      let absent = contains-count request.name db.templates free in
      record {
        one_name = λ name. elim (Bool-cases (request.name == name)) [
          | inl same ↦
              let none_yet : count (named name) db.templates ≡ 0 =
                rw (← (==_iff request.name name).0 same) absent in
              ground (arith, count-append (named name) db.templates (t ∷ []), none_yet)
          | inr other ↦
              ground
                (arith, count-append (named name) db.templates (t ∷ []), h.one_name name, other)
        ];
        one_id = λ i. ground (
          arith,
          count-append (has_id i) db.templates (t ∷ []),
          h.one_id i,
          h.fresh i,
          ==_iff db.next_id i,
        );
        fresh = λ i.
            ground (
              arith,
              count-append (has_id i) db.templates (t ∷ []),
              h.fresh i,
              ==_iff db.next_id i,
            );
        served =
            All-append IsServed db.templates (t ∷ []) h.served
              (record { known = known; apart = disjoint }, tt);
        present = λ i used.
            let (found, e) = h.present i used in
            (found, find-append (has_id i) db.templates (t ∷ []) found e);
      }

  pub create_stored-IsKept :
      (db : Database R) (request : TemplateData R) (is_builtin : Bool) (after : Database R)
      → create_stored db request is_builtin ≡ ok after
      → KnownTypes request.registers
      → IsKept db
      → IsKept after
  unfolding create_stored
  create_stored-IsKept db request is_builtin after e known h =
      let names = map (λ t. t.content.name) db.templates in
      let (content, made, e1) = >>=-eq-ok (create_template names request) _ e in
      let (same, free, disjoint) = create_template-eq-ok names request content made known in
      subst IsKept
        (ap
            (λ c. record db {
              templates =
                  db.templates
                  ++ record { id = db.next_id; is_builtin = is_builtin; content = c } ∷ [];
              next_id = db.next_id + 1;
            })
            (sym same)
          ∙ ap (committed db) e1)
        (added-IsKept db request is_builtin known disjoint free h)
