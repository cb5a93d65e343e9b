-- ===== src/Services/Profiles/Causes.antt =====
-- The calls on profiles, what they may raise and why, and what they keep.
use ghost_meter.Prelude.{
  ℕ, ◌+◌, ◌≤◌, ◌<◌, ◌≡◌, refl, sym, ap, ◌∙◌, String, Bool, true, false, ◌&&◌, Option, none, some,
  List, [], ◌∷◌, map, arith, ltb, ◌==◌, ==_iff, nat_eq, string_eq, if◌then◌else◌, Bool-cases, inl,
  inr, ◌⊎◌,
}
use ghost_meter.Dict.{get}
use ghost_meter.Errors.{
  Error, Result, ok, err, not_found, conflict, forbidden, validation, integrity_error,
}
use ghost_meter.Table.{bit}
use ghost_meter.Services.Profiles.{
  SimulationProfile, SimulationProfileCreate, SimulationProfileUpdate, Database, find_profile,
  count_default, count_named, commit_or_raise_conflict, clear_default, clear_existing_default,
  cleared_if, given, find_default,
}
use ghost_meter.Services.Profiles.Counts.{
  named_by, count_default-clear_default, count_named-clear_default,
}

pub data Call (R : Type 0) : Type 0 where
  create : SimulationProfileCreate R → Call R
  update : ℕ → SimulationProfileUpdate R → Call R
  delete : ℕ → Call R

-- The profile that a call is about.
abbrev pub target : {R : Type 0} → Call R → Option ℕ
target (create request) = none
target (update profile_id request) = some profile_id
target (delete profile_id) = some profile_id

-- Another profile of the template than `p` has the name that an update leaves `p` with.
abbrev pub Taken :
    {R : Type 0} → Database R → SimulationProfile R → SimulationProfileUpdate R → Type 0
Taken db p request =
    bit (named_by p.template_id (given request.name p.name) p) + 1
    ≤ count_named p.template_id (given request.name p.name) db.profiles

-- What a call may raise, and why. `taken_before_select` and `earlier_id` are met only by an update
-- that makes a profile the default: a taken name, as the database's own error, and an existing
-- default whose id is above the profile's.
pub data Blamed {R : Type 0} (db : Database R) : Call R → Error → Type 0 where
  no_template :
      {request : SimulationProfileCreate R}
      → get db.templates request.template_id ≡ none
      → Blamed db (create request) (not_found "TEMPLATE_NOT_FOUND")
  no_profile :
      {call : Call R} {i : ℕ}
      → target call ≡ some i
      → find_profile db.profiles i ≡ none
      → Blamed db call (not_found "PROFILE_NOT_FOUND")
  builtin :
      {call : Call R} {i : ℕ} (p : SimulationProfile R)
      → target call ≡ some i
      → find_profile db.profiles i ≡ some p
      → p.is_builtin ≡ true
      → Blamed db call (forbidden "BUILTIN_PROFILE_IMMUTABLE")
  created_taken :
      {request : SimulationProfileCreate R}
      → 1 ≤ count_named request.template_id request.name db.profiles
      → Blamed db (create request) (conflict "PROFILE_NAME_CONFLICT")
  updated_taken :
      {i : ℕ} {request : SimulationProfileUpdate R} (p : SimulationProfile R)
      → find_profile db.profiles i ≡ some p
      → Taken db p request
      → Blamed db (update i request) (conflict "PROFILE_NAME_CONFLICT")
  taken_before_select :
      {i : ℕ} {request : SimulationProfileUpdate R} (p : SimulationProfile R)
      → given request.is_default false ≡ true
      → find_profile db.profiles i ≡ some p
      → Taken db p request
      → Blamed db (update i request) integrity_error
  earlier_id :
      {i : ℕ} {request : SimulationProfileUpdate R} (p existing : SimulationProfile R)
      → given request.is_default false ≡ true
      → find_profile db.profiles i ≡ some p
      → find_default p.template_id db.profiles ≡ some existing
      → p.id < existing.id
      → Blamed db (update i request) validation

module _ {R : Type 0} where
  abbrev OneDefault : List (SimulationProfile R) → Type 0
  OneDefault profiles = (t : ℕ) → count_default t profiles ≤ 1

  pub record IsConsistent (db : Database R) : Type 0 where
    pub one_default : (t : ℕ) → count_default t db.profiles ≤ 1
    pub distinct_names : (t : ℕ) (name : String) → count_named t name db.profiles ≤ 1

  pub commit-cases :
      (t : ℕ) (name : String) (profiles : List (SimulationProfile R))
      → count_default t profiles ≤ 1
      → ((commit_or_raise_conflict t name profiles ≡ ok tt) × (count_named t name profiles ≤ 1))
        ⊎ ((commit_or_raise_conflict t name profiles ≡ err (conflict "PROFILE_NAME_CONFLICT"))
            × (2 ≤ count_named t name profiles))
  unfolding commit_or_raise_conflict
  commit-cases t name profiles one = elim (Bool-cases (ltb 1 (count_named t name profiles))) [
    | inl twice ↦ inr (rw twice, ground arith)
    | inr once ↦ inl (ground arith, ground arith)
  ]

  pub cleared-cases :
      (b : Bool) (t : ℕ) (profiles : List (SimulationProfile R))
      → OneDefault profiles
      → cleared_if b t profiles ≡ ok (if b then map (clear_default t) profiles else profiles)
  unfolding cleared_if clear_existing_default
  cleared-cases true t profiles one = ground (arith, one t)
  cleared-cases false t profiles one = refl

  pub count_default-cleared :
      (b : Bool) (t u : ℕ) (profiles : List (SimulationProfile R))
      → count_default u (if b then map (clear_default t) profiles else profiles)
        ≡ (if b && u == t then 0 else count_default u profiles)
  count_default-cleared true t u profiles = count_default-clear_default t u profiles
  count_default-cleared false t u profiles = refl

  pub count_named-cleared :
      (b : Bool) (t u : ℕ) (name : String) (profiles : List (SimulationProfile R))
      → count_named u name (if b then map (clear_default t) profiles else profiles)
        ≡ count_named u name profiles
  count_named-cleared true t u name profiles = count_named-clear_default t u name profiles
  count_named-cleared false t u name profiles = refl

  -- A consistent database, or one of those errors.
  pub data Safe (db : Database R) (call : Call R) : Result (Database R) → Type 0 where
    kept : {after : Database R} → IsConsistent after → Safe db call (ok after)
    raised : {e : Error} → Blamed db call e → Safe db call (err e)

  pub find_profile-id :
      (profiles : List (SimulationProfile R)) (i : ℕ) (p : SimulationProfile R)
      → find_profile profiles i ≡ some p
      → p.id ≡ i
  unfolding find_profile
  find_profile-id [] i p e = cc
  find_profile-id (q ∷ profiles) i p e = elim (Bool-cases (q.id == i)) [
    | inl same ↦
        let one : q ≡ p = ap (λ o. given o q) (rw same at e) in
        ap (λ x. x.id) (sym one) ∙ (==_iff q.id i).0 same
    | inr other ↦ find_profile-id profiles i p (rw other at e)
  ]
