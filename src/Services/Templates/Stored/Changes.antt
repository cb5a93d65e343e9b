-- ===== src/Services/Templates/Stored/Changes.antt =====
-- A deletion and an update keep the templates in order.
use mathlib.Core.Path.{subst}
use ghost_meter.Prelude.{
  ℕ, ◌≤◌, ◌<◌, ◌≡◌, refl, sym, ap, ◌∙◌, String, true, false, not, ◌&&◌, Option, none, some, List,
  arith, ltb, ◌==◌, ==_iff, nat_eq, string_eq, Bool-cases, inl, inr,
}
use ghost_meter.Errors.{ok, conflict, forbidden, raise_if, raise_if-eq-ok, >>=-eq-ok}
use ghost_meter.Table.{
  find, write, remove, count, count-write, count-write_keep, count-remove, count_others, find-write,
  find-write_self, find-remove, find-hit, All-remove, All-write,
}
use ghost_meter.Services.Templates.{TemplateData, build_registers}
use ghost_meter.Services.Templates.Overlap.{KnownTypes, PairwiseDisjoint}
use ghost_meter.Services.Templates.Copies.{checked, build_registers-eq}
use ghost_meter.Services.Templates.Stored.{
  DeviceTemplate, Database, has_id, named, template_found, stored_template, commit_registers,
  replace, flush_name, update_template, delete_template, committed,
}
use ghost_meter.Services.Templates.Stored.Invariant.{IsServed, IsKept, checked-Disjoint}

module _ {R : Type 0} where
  template_found-eq-ok :
      (o : Option (DeviceTemplate R)) (t : DeviceTemplate R) → template_found o ≡ ok t → o ≡ some t
  unfolding template_found
  template_found-eq-ok none t e = cc
  template_found-eq-ok (some s) t e = cc

  pub stored_template-eq-ok :
      (rows : List (DeviceTemplate R)) (i : ℕ) (t : DeviceTemplate R)
      → stored_template rows i ≡ ok t
      → find (has_id i) rows ≡ some t
  unfolding stored_template
  stored_template-eq-ok rows i t e = template_found-eq-ok (find (has_id i) rows) t e

  has_id-other :
      (i j : ℕ) → ¬ (i ≡ j) → (t : DeviceTemplate R) → has_id j t ≡ true → has_id i t ≡ false
  unfolding has_id
  has_id-other i j apart t e = ground (arith, ==_iff t.id j, ==_iff t.id i)

  removed-IsKept :
      (db : Database R) (j : ℕ)
      → count (λ used. used == j) db.devices ≡ 0
      → IsKept db
      → IsKept (record db { templates = remove (has_id j) db.templates })
  removed-IsKept db j unused h = record {
    one_name =
        λ name. omega (arith, count-remove (named name) (has_id j) db.templates, h.one_name name);
    one_id = λ i. omega (arith, count-remove (has_id i) (has_id j) db.templates, h.one_id i);
    fresh =
        λ i above. omega (arith, count-remove (has_id i) (has_id j) db.templates, h.fresh i above);
    served = All-remove IsServed (has_id j) db.templates h.served;
    present = λ i used.
        let (t, found) = h.present i used in
        let apart : ¬ (i ≡ j) = λ same. absurd (
          let used' : 0 < count (λ u. u == j) db.devices = rw (← same) used in
          omega (arith, used', unused)) in
        (t, find-remove (has_id i) (has_id j) db.templates (has_id-other i j apart) ∙ found);
  }

  pub delete_template-IsKept :
      (db : Database R) (j : ℕ) (after : Database R)
      → delete_template db j ≡ ok after
      → IsKept db
      → IsKept after
  unfolding delete_template
  delete_template-IsKept db j after e h =
      let (t, _, e1) = >>=-eq-ok (stored_template db.templates j) _ e in
      let (u, unused, e2) =
        >>=-eq-ok
          (raise_if (ltb 0 (count (λ used. used == j) db.devices)) (conflict "TEMPLATE_IN_USE")) _
          e1 in
      let (_, _, e3) =
        >>=-eq-ok (raise_if t.is_builtin (forbidden "BUILTIN_TEMPLATE_IMMUTABLE")) _ e2 in
      let none_left = raise_if-eq-ok _ _ u unused in
      subst IsKept (ap (committed db) e3) (removed-IsKept db j (ground (arith, none_left)) h)

  replace-has_id :
      (request : TemplateData R) (i : ℕ) (t : DeviceTemplate R)
      → has_id i (replace request t) ≡ has_id i t
  unfolding replace has_id
  replace-has_id request i t = refl

  replace-IsServed :
      (request : TemplateData R) (t : DeviceTemplate R)
      → KnownTypes request.registers
      → (request.protocol ≡ "modbus_tcp" → PairwiseDisjoint request.registers)
      → IsServed (replace request t)
  unfolding replace
  replace-IsServed request t known disjoint = record {
    known = subst KnownTypes (sym (build_registers-eq request.registers)) known;
    apart = λ modbus.
        subst PairwiseDisjoint (sym (build_registers-eq request.registers)) (disjoint modbus);
  }

  -- The name of the template that is written was free, but for its own row.
  replaced-named :
      (db : Database R) (j : ℕ) (request : TemplateData R) (t : DeviceTemplate R) (name : String)
      → find (has_id j) db.templates ≡ some t
      → count (λ s. named request.name s && not (has_id j s)) db.templates ≡ 0
      → IsKept db
      → count (named name) (write (has_id j) (replace request) db.templates) ≤ 1
  unfolding named replace
  replaced-named db j request t name found free h =
      let written = count-write (named name) (has_id j) (replace request) db.templates t found in
      elim (Bool-cases (request.name == name)) [
        | inl same ↦
            let others = count_others (named name) (has_id j) db.templates t found (h.one_id j) in
            let free' : count (λ s. named name s && not (has_id j s)) db.templates ≡ 0 =
              rw (← (==_iff request.name name).0 same) free in
            ground (arith, written, others, free', same)
        | inr other ↦ ground (arith, written, h.one_name name, other)
      ]

  replaced-IsKept :
      (db : Database R) (j : ℕ) (request : TemplateData R) (t : DeviceTemplate R)
      → find (has_id j) db.templates ≡ some t
      → count (λ s. named request.name s && not (has_id j s)) db.templates ≡ 0
      → KnownTypes request.registers
      → (request.protocol ≡ "modbus_tcp" → PairwiseDisjoint request.registers)
      → IsKept db
      → IsKept (record db { templates = write (has_id j) (replace request) db.templates })
  replaced-IsKept db j request t found free known disjoint h =
      let same = λ (i : ℕ).
        count-write_keep (has_id i) (has_id j) (replace request) db.templates
          (replace-has_id request i) in
      record {
        one_name = λ name. replaced-named db j request t name found free h;
        one_id = λ i. omega (arith, same i, h.one_id i);
        fresh = λ i above. omega (arith, same i, h.fresh i above);
        served =
            All-write IsServed (has_id j) (replace request) db.templates
              (λ s. replace-IsServed request s known disjoint) h.served;
        present = λ i used.
            let (s, e) = h.present i used in
            elim (Bool-cases (i == j)) [
              | inl same' ↦
                  let here = (==_iff i j).0 same' in
                  (
                    replace request s,
                    rw (← here) (
                        find-write_self (has_id i) (replace request) db.templates s e
                          (replace-has_id request i s ∙ find-hit (has_id i) db.templates s e)),
                  )
              | inr other ↦ (
                s,
                find-write (has_id i) (has_id j) (replace request) db.templates
                      (replace-has_id request i)
                      (has_id-other i j (λ here. ground (arith, ==_iff i j)))
                    ∙ e,
              )
            ];
      }

  pub update_template-IsKept :
      (db : Database R) (j : ℕ) (request : TemplateData R) (after : Database R)
      → update_template db j request ≡ ok after
      → KnownTypes request.registers
      → IsKept db
      → IsKept after
  unfolding update_template flush_name
  update_template-IsKept db j request after e known h =
      let (t, found, e1) = >>=-eq-ok (stored_template db.templates j) _ e in
      let (_, _, e2) =
        >>=-eq-ok (raise_if t.is_builtin (forbidden "BUILTIN_TEMPLATE_IMMUTABLE")) _ e1 in
      let (u, passed, e3) = >>=-eq-ok (checked request.protocol request.registers) _ e2 in
      let (v, free, e4) = >>=-eq-ok (flush_name db.templates j request.name) _ e3 in
      let (_, _, e5) = >>=-eq-ok (commit_registers (build_registers request.registers)) _ e4 in
      let name_free = raise_if-eq-ok _ _ v free in
      subst IsKept (ap (committed db) e5) (
        replaced-IsKept db j request t (stored_template-eq-ok db.templates j t found)
          (ground (arith, name_free)) known (checked-Disjoint request u known passed) h)
