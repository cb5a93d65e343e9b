-- ===== src/Services/Anomalies/Overlaps.antt =====
-- The overlap check of each register's schedules against all pairs of schedules.
use ghost_meter.Prelude.{
  ◌+◌, ◌≤◌, ◌≡◌, ◌↔◌, refl, sym, ap, ◌∙◌, String, true, false, List, [], ◌∷◌, map, arith, All, ltb,
  contains, ◌==◌, ==_iff, ==_refl, nat_eq, string_eq, Bool-cases, inl, inr, ◌⊎◌,
}
use ghost_meter.Errors.{ok, err, validation}
use ghost_meter.Services.Anomalies.{
  ScheduleCreate, ends_at, clash, of_register, clashes_any, clash_free, check_overlap, check_names,
  all_known,
}

module _ {R : Type 0} where
  -- The time of one schedule is over before the other's begins, if they share a register.
  abbrev pub Separate : ScheduleCreate R → ScheduleCreate R → Type 0
  Separate a b =
      a.register_name ≡ b.register_name
      → (a.trigger_after_seconds + a.duration_seconds ≤ b.trigger_after_seconds)
        ⊎ (b.trigger_after_seconds + b.duration_seconds ≤ a.trigger_after_seconds)

  abbrev pub PairwiseSeparate : List (ScheduleCreate R) → Type 0
  PairwiseSeparate [] = Unit
  PairwiseSeparate (a ∷ rest) = All (Separate a) rest × PairwiseSeparate rest

  clash_iff :
      (a b : ScheduleCreate R)
      → (clash a b ≡ false) ↔ (
          (a.trigger_after_seconds + a.duration_seconds ≤ b.trigger_after_seconds)
          ⊎ (b.trigger_after_seconds + b.duration_seconds ≤ a.trigger_after_seconds))
  unfolding clash ends_at
  clash_iff a b = (
    λ h.
        elim (Bool-cases
          (ltb b.trigger_after_seconds (a.trigger_after_seconds + a.duration_seconds))) [
            | inl lt ↦ inr (ground arith)
            | inr ge ↦ inl (ground arith)
          ],
    λ h. ground arith,
  )

  clashes_any→Separate :
      (a : ScheduleCreate R) (bs : List (ScheduleCreate R))
      → clashes_any a (of_register a.register_name bs) ≡ false
      → All (Separate a) bs
  unfolding clashes_any of_register
  clashes_any→Separate a [] h = tt
  clashes_any→Separate a (b ∷ bs) h = (
    λ same. (clash_iff a b).0 (ground (arith, ==_iff b.register_name a.register_name)),
    clashes_any→Separate a bs (ground arith),
  )

  Separate→clashes_any :
      (a : ScheduleCreate R) (bs : List (ScheduleCreate R))
      → All (Separate a) bs
      → clashes_any a (of_register a.register_name bs) ≡ false
  unfolding clashes_any of_register
  Separate→clashes_any a [] h = refl
  Separate→clashes_any a (b ∷ bs) (first, h) =
      elim (Bool-cases (b.register_name == a.register_name)) [
        | inl same ↦
            rw
              (
                same,
                (clash_iff a b).1 (first (sym ((==_iff b.register_name a.register_name).0 same))),
              )
              (Separate→clashes_any a bs h)
        | inr other ↦ rw other (Separate→clashes_any a bs h)
      ]

  clash_free→PairwiseSeparate :
      (schedules : List (ScheduleCreate R))
      → ((name : String) → clash_free (of_register name schedules) ≡ true)
      → PairwiseSeparate schedules
  unfolding clash_free of_register
  clash_free→PairwiseSeparate [] h = tt
  clash_free→PairwiseSeparate (a ∷ rest) h = (
    clashes_any→Separate a rest (ground (arith, h a.register_name, ==_refl a.register_name)),
    clash_free→PairwiseSeparate rest (λ name. ground (arith, h name)),
  )

  PairwiseSeparate→clash_free :
      (schedules : List (ScheduleCreate R)) (name : String)
      → PairwiseSeparate schedules
      → clash_free (of_register name schedules) ≡ true
  unfolding clash_free of_register
  PairwiseSeparate→clash_free [] name h = refl
  PairwiseSeparate→clash_free (a ∷ rest) name (first, h) =
      elim (Bool-cases (a.register_name == name)) [
        | inl same ↦
            let clear : clashes_any a (of_register name rest) ≡ false =
              ap (λ n. clashes_any a (of_register n rest))
                (sym ((==_iff a.register_name name).0 same))
              ∙ Separate→clashes_any a rest first in
            rw (same, clear) (PairwiseSeparate→clash_free rest name h)
        | inr other ↦ rw other (PairwiseSeparate→clash_free rest name h)
      ]

  of_register-missing :
      (schedules : List (ScheduleCreate R)) (name : String)
      → contains name (map (λ s. s.register_name) schedules) ≡ false
      → of_register name schedules ≡ []
  unfolding of_register
  of_register-missing [] name h = refl
  of_register-missing (a ∷ rest) name h = ground (
    arith,
    of_register-missing rest name,
    ==_iff a.register_name name,
    ==_iff name a.register_name,
  )

  check_names-contains :
      (schedules : List (ScheduleCreate R)) (names : List String) (name : String)
      → check_names schedules names ≡ ok tt
      → contains name names ≡ true
      → clash_free (of_register name schedules) ≡ true
  unfolding check_names check_overlap
  check_names-contains schedules [] name passed found = ground arith
  check_names-contains schedules (n ∷ names) name passed found =
      elim (Bool-cases (clash_free (of_register n schedules))) [
        | inl free ↦ elim (Bool-cases (name == n)) [
          | inl same ↦
              ap (λ m. clash_free (of_register m schedules)) ((==_iff name n).0 same) ∙ free
          | inr other ↦
              check_names-contains schedules names name (rw free at passed) (rw other at found)
        ]
        | inr clashing ↦ let failed : err validation ≡ ok tt = rw clashing at passed in cc
      ]

  pub check_names→PairwiseSeparate :
      (schedules : List (ScheduleCreate R))
      → check_names schedules (map (λ s. s.register_name) schedules) ≡ ok tt
      → PairwiseSeparate schedules
  unfolding clash_free
  check_names→PairwiseSeparate schedules passed = clash_free→PairwiseSeparate schedules λ name.
      elim (Bool-cases
        (contains name (map (λ (s : ScheduleCreate R). s.register_name) schedules))) [
          | inl found ↦
              check_names-contains schedules (map (λ s. s.register_name) schedules) name passed
                found
          | inr missing ↦ rw (of_register-missing schedules name missing)
        ]

  pub PairwiseSeparate→check_names :
      (schedules : List (ScheduleCreate R)) (names : List String)
      → PairwiseSeparate schedules
      → check_names schedules names ≡ ok tt
  unfolding check_names check_overlap
  PairwiseSeparate→check_names schedules [] h = refl
  PairwiseSeparate→check_names schedules (name ∷ names) h =
      rw (PairwiseSeparate→clash_free schedules name h)
        (PairwiseSeparate→check_names schedules names h)

  pub all_known_iff :
      (names : List String) (schedules : List (ScheduleCreate R))
      → (all_known names schedules ≡ true)
        ↔ All (λ s. contains s.register_name names ≡ true) schedules
  unfolding all_known
  all_known_iff names [] = (λ h. tt, λ h. refl)
  all_known_iff names (s ∷ schedules) = (
    λ h. (ground arith, (all_known_iff names schedules).0 (ground arith)),
    λ (first, h). rw first ((all_known_iff names schedules).1 h),
  )
