-- ===== src/Services/Profiles/Defaults.antt =====
-- The default profile and the names of a template's profiles, and the errors of the calls.
use mathlib.Core.Path.{subst}
use ghost_meter.Prelude.{
  ℕ, ◌≤◌, ◌≡◌, refl, sym, String, Bool, true, false, ◌&&◌, some, List, [], ◌∷◌, ◌++◌, map, arith,
  ltb, ==_iff, nat_eq, string_eq, if◌then◌else◌, Bool-cases, Option-cases, inl, inr,
}
use ghost_meter.Dict.{get}
use ghost_meter.Errors.{Result, validation, integrity_error}
use ghost_meter.Services.Profiles.{
  SimulationProfile, SimulationProfileCreate, SimulationProfileUpdate, Database, template_found,
  get_template_or_404, find_profile, profile_found, get_profile, is_default_of, count_default,
  count_named, clear_default, new_profile, create_profile, write, apply_update, update_profile,
  delete_profile, given, is_given, find_default, rename, taken_at_select, is_after,
  set_before_cleared,
}
use ghost_meter.Services.Profiles.Counts.{
  named_by, count_default-append, count_named-append, find-clear_default, count_default-write,
  count_named-write, count-remove,
}
use ghost_meter.Services.Profiles.Causes.{
  Call, create, update, delete, Taken, Blamed, no_template, no_profile, builtin, created_taken,
  updated_taken, taken_before_select, earlier_id, IsConsistent, commit-cases, cleared-cases,
  count_default-cleared, count_named-cleared, Safe, kept, raised, find_profile-id,
}

module _ {R : Type 0} where
  module _ (db : Database R) (h : IsConsistent db) (request : SimulationProfileCreate R) where
    added : List (SimulationProfile R)
    added =
        (if request.is_default
          then map (clear_default request.template_id) db.profiles
          else db.profiles)
        ++ new_profile db.next_id request ∷ []

    added-count_default : (u : ℕ) → count_default u added ≤ 1
    unfolding added new_profile is_default_of
    added-count_default u = ground (
      arith,
      count_default-append u
          (if request.is_default
            then map (clear_default request.template_id) db.profiles
            else db.profiles)
          (new_profile db.next_id request),
      count_default-cleared request.is_default request.template_id u db.profiles,
      h.one_default u,
      ==_iff request.template_id u,
      ==_iff u request.template_id,
    )

    added-count_named :
        count_named request.template_id request.name added ≤ 1
        → (u : ℕ) (name : String) → count_named u name added ≤ 1
    unfolding added new_profile named_by
    added-count_named once u name = ground (
      arith,
      once,
      count_named-append u name
          (if request.is_default
            then map (clear_default request.template_id) db.profiles
            else db.profiles)
          (new_profile db.next_id request),
      count_named-cleared request.is_default request.template_id u name db.profiles,
      h.distinct_names u name,
      ==_iff request.template_id u,
      ==_iff request.name name,
    )

    added-count_named_taken :
        2 ≤ count_named request.template_id request.name added
        → 1 ≤ count_named request.template_id request.name db.profiles
    unfolding added new_profile named_by
    added-count_named_taken twice = ground (
      arith,
      twice,
      count_named-append request.template_id request.name
          (if request.is_default
            then map (clear_default request.template_id) db.profiles
            else db.profiles)
          (new_profile db.next_id request),
      count_named-cleared request.is_default request.template_id request.template_id request.name
          db.profiles,
    )

    create_profile-Safe : Safe db (create request) (create_profile db request)
    unfolding create_profile get_template_or_404 template_found added
    create_profile-Safe = elim (Option-cases (get db.templates request.template_id)) [
      | inl missing ↦ rw missing (raised (no_template missing))
      | inr (name, found) ↦
          let cleared =
            cleared-cases request.is_default request.template_id db.profiles h.one_default in
          elim (commit-cases request.template_id request.name added
            (added-count_default request.template_id)) [
              | inl (committed, once) ↦
                  rw (found, cleared, committed)
                    (kept (record {
                      one_default = added-count_default;
                      distinct_names = added-count_named once;
                    }))
              | inr (taken, twice) ↦
                  rw (found, cleared, taken)
                    (raised (created_taken (added-count_named_taken twice)))
            ]
    ]

  module _ (db : Database R) (h : IsConsistent db) (profile_id : ℕ)
      (request : SimulationProfileUpdate R) (p : SimulationProfile R)
      (found : find_profile db.profiles profile_id ≡ some p) where
    asks : Bool
    asks = given request.is_default false

    before : List (SimulationProfile R)
    unfolding asks
    before = if asks then map (clear_default p.template_id) db.profiles else db.profiles

    written : List (SimulationProfile R)
    unfolding before
    written = write profile_id (apply_update request) before

    -- The row as the clearing leaves it.
    row : SimulationProfile R
    unfolding asks
    row = if asks then clear_default p.template_id p else p

    row_found : find_profile before profile_id ≡ some row
    unfolding before row asks
    row_found = elim (Bool-cases (given request.is_default false)) [
      | inl yes' ↦ rw yes' (find-clear_default p.template_id profile_id db.profiles p found)
      | inr no' ↦ rw no' found
    ]

    written-count_default : (u : ℕ) → count_default u written ≤ 1
    unfolding written before row asks is_default_of clear_default apply_update
    written-count_default u = ground (
      arith,
      count_default-write u profile_id (apply_update request) before row row_found,
      count_default-cleared asks p.template_id u db.profiles,
      h.one_default u,
      ==_iff p.template_id u,
      ==_iff u p.template_id,
    )

    written-count_named :
        count_named p.template_id (given request.name p.name) written ≤ 1
        → (u : ℕ) (name : String) → count_named u name written ≤ 1
    unfolding written before row asks named_by clear_default apply_update
    written-count_named once u name = ground (
      arith,
      once,
      count_named-write u name profile_id (apply_update request) before row row_found,
      count_named-cleared asks p.template_id u name db.profiles,
      h.distinct_names u name,
      ==_iff p.template_id u,
      ==_iff p.name name,
      ==_iff (given request.name p.name) name,
    )

    written-Taken :
        2 ≤ count_named p.template_id (given request.name p.name) written → Taken db p request
    unfolding written before row asks named_by clear_default apply_update
    written-Taken twice = ground (
      arith,
      twice,
      count_named-write p.template_id (given request.name p.name) profile_id (apply_update request)
          before row row_found,
      count_named-cleared asks p.template_id p.template_id (given request.name p.name) db.profiles,
    )

    hit : p.id ≡ profile_id
    hit = find_profile-id db.profiles profile_id p found

    taken_at_select-Blamed :
        taken_at_select request p db.profiles ≡ true
        → Blamed db (update profile_id request) integrity_error
    unfolding taken_at_select named_by rename
    taken_at_select-Blamed e =
        let at_id = subst (λ i. find_profile db.profiles i ≡ some p) (sym hit) found in
        taken_before_select p (ground (arith, e)) found (
          ground (
            arith,
            e,
            count_named-write p.template_id (given request.name p.name) p.id (rename request)
                db.profiles p at_id,
          ))

    set_before_cleared-Blamed :
        set_before_cleared request p db.profiles ≡ true
        → Blamed db (update profile_id request) validation
    unfolding set_before_cleared is_after
    set_before_cleared-Blamed e = elim (Option-cases (find_default p.template_id db.profiles)) [
      | inl none' ↦
          let e' : (given request.is_default false && false) ≡ true = rw none' at e in
          absurd (ground arith)
      | inr (existing, default) ↦
          let e' : (given request.is_default false && ltb p.id existing.id) ≡ true =
            rw default at e in
          earlier_id p existing (ground arith) found default (ground arith)
    ]

    found_update_profile-Safe :
        Safe db (update profile_id request) (update_profile db profile_id request)
    unfolding update_profile get_profile profile_found asks before written
    found_update_profile-Safe = elim (Bool-cases (p.is_builtin && is_given request.configs)) [
      | inl refused ↦ rw (found, refused) (raised (builtin p refl found (ground (arith, refused))))
      | inr allowed ↦ elim (Bool-cases (taken_at_select request p db.profiles)) [
        | inl early ↦ rw (found, allowed, early) (raised (taken_at_select-Blamed early))
        | inr free ↦
            let cleared =
              cleared-cases (given request.is_default false) p.template_id db.profiles
                h.one_default in
            elim (Bool-cases (set_before_cleared request p db.profiles)) [
              | inl first ↦
                  rw (found, allowed, free, cleared, first)
                    (raised (set_before_cleared-Blamed first))
              | inr last ↦
                  elim (commit-cases p.template_id (given request.name p.name) written
                    (written-count_default p.template_id)) [
                      | inl (committed, once) ↦
                          rw (found, allowed, free, cleared, last, committed)
                            (kept (record {
                              one_default = written-count_default;
                              distinct_names = written-count_named once;
                            }))
                      | inr (taken, twice) ↦
                          rw (found, allowed, free, cleared, last, taken)
                            (raised (updated_taken p found (written-Taken twice)))
                    ]
            ]
      ]
    ]

  update_profile-Safe :
      (db : Database R) (profile_id : ℕ) (request : SimulationProfileUpdate R)
      → IsConsistent db
      → Safe db (update profile_id request) (update_profile db profile_id request)
  unfolding update_profile get_profile profile_found
  update_profile-Safe db profile_id request h =
      elim (Option-cases (find_profile db.profiles profile_id)) [
        | inl missing ↦ rw missing (raised (no_profile refl missing))
        | inr (p, found) ↦ found_update_profile-Safe db h profile_id request p found
      ]

  delete_profile-Safe :
      (db : Database R) (profile_id : ℕ)
      → IsConsistent db
      → Safe db (delete profile_id) (delete_profile db profile_id)
  unfolding delete_profile get_profile profile_found
  delete_profile-Safe db profile_id h = elim (Option-cases (find_profile db.profiles profile_id)) [
    | inl missing ↦ rw missing (raised (no_profile refl missing))
    | inr (p, found) ↦ elim (Bool-cases p.is_builtin) [
      | inl refused ↦ rw (found, refused) (raised (builtin p refl found refused))
      | inr allowed ↦
          rw (found, allowed)
            (kept (record {
              one_default =
                  λ t. omega (arith, (count-remove t profile_id "" db.profiles).0, h.one_default t);
              distinct_names = λ t name.
                  omega (
                    arith,
                    (count-remove t profile_id name db.profiles).1,
                    h.distinct_names t name,
                  );
            }))
    ]
  ]

module _ {R : Type 0} where
  unfoldable pub perform : Database R → Call R → Result (Database R)
  perform db (create request) = create_profile db request
  perform db (update profile_id request) = update_profile db profile_id request
  perform db (delete profile_id) = delete_profile db profile_id

  -- With at most one default and no name twice in each template, a call keeps it so, or raises for
  -- a cause that the database shows: a missing template or profile, a built-in profile, a name that
  -- another profile of the template has; or, in an update that makes a profile the default, such a
  -- name as the database's own error, or an existing default whose id is above the profile's.
  pub perform-Safe :
      (db : Database R) (call : Call R) → IsConsistent db → Safe db call (perform db call)
  unfolding perform
  perform-Safe db (create request) h = create_profile-Safe db h request
  perform-Safe db (update profile_id request) h = update_profile-Safe db profile_id request h
  perform-Safe db (delete profile_id) h = delete_profile-Safe db profile_id h
