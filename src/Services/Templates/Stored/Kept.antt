-- ===== src/Services/Templates/Stored/Kept.antt =====
-- Stored templates have names of their own and apart registers, and stay while a device uses them.
use ghost_meter.Prelude.{
  ℕ, ◌≡◌, refl, String, false, Option, List, [], ◌∷◌, All, map, nat_eq, string_eq,
}
use ghost_meter.Errors.{Result, ok, err, >>=-eq-ok}
use ghost_meter.Table.{find-All}
use ghost_meter.Services.Templates.{RegisterDefinition, copy_register, clone_data}
use ghost_meter.Services.Templates.Overlap.{KnownTypes}
use ghost_meter.Services.Templates.Stored.{
  Database, has_id, stored_template, clone_template, import_template, Call, create, update, delete,
  clone, import_from, perform, committed, perform_all,
}
use ghost_meter.Services.Templates.Stored.Invariant.{IsServed, IsKept, Asked, create_stored-IsKept}
use ghost_meter.Services.Templates.Stored.Changes.{
  stored_template-eq-ok, delete_template-IsKept, update_template-IsKept,
}

module _ {R : Type 0} where
  copy-KnownTypes :
      (regs : List (RegisterDefinition R)) → KnownTypes regs → KnownTypes (map copy_register regs)
  unfolding copy_register
  copy-KnownTypes [] h = tt
  copy-KnownTypes (reg ∷ regs) (first, rest) = (first, copy-KnownTypes regs rest)

  clone_template-IsKept :
      (db : Database R) (j : ℕ) (new_name : Option String) (after : Database R)
      → clone_template db j new_name ≡ ok after
      → IsKept db
      → IsKept after
  unfolding clone_template clone_data
  clone_template-IsKept db j new_name after e h =
      let (source, found, e1) = >>=-eq-ok (stored_template db.templates j) _ e in
      let served =
        find-All IsServed (has_id j) db.templates source
          (stored_template-eq-ok db.templates j source found) h.served in
      create_stored-IsKept db (clone_data source.content new_name) false after e1
        (copy-KnownTypes source.content.registers served.known) h

  perform-IsKept :
      (db : Database R) (call : Call R) (after : Database R)
      → perform db call ≡ ok after
      → Asked call
      → IsKept db
      → IsKept after
  unfolding perform Asked import_template
  perform-IsKept db (create request is_builtin) after e asked h =
      create_stored-IsKept db request is_builtin after e asked h
  perform-IsKept db (update j request) after e asked h =
      update_template-IsKept db j request after e asked h
  perform-IsKept db (delete j) after e asked h = delete_template-IsKept db j after e h
  perform-IsKept db (clone j new_name) after e asked h =
      clone_template-IsKept db j new_name after e h
  perform-IsKept db (import_from request) after e asked h =
      create_stored-IsKept db request false after e asked h

  committed-IsKept :
      (db : Database R) (r : Result (Database R))
      → ((after : Database R) → r ≡ ok after → IsKept after)
      → IsKept db
      → IsKept (committed db r)
  committed-IsKept db (ok after) done h = done after refl
  committed-IsKept db (err e) done h = h

  -- Where no two templates share a name or an id, ids are below the next fresh one, registers are
  -- of known types and those of a Modbus template share no address, and every template that a
  -- device uses is there, that is so again after any calls whose registers are of known types.
  pub perform_all-IsKept :
      (db : Database R) (calls : List (Call R))
      → All Asked calls
      → IsKept db
      → IsKept (perform_all db calls)
  unfolding perform_all
  perform_all-IsKept db [] asked h = h
  perform_all-IsKept db (call ∷ calls) (first, rest) h =
      perform_all-IsKept (committed db (perform db call)) calls rest (
        committed-IsKept db (perform db call) (λ after e. perform-IsKept db call after e first h) h)
