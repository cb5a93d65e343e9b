-- ===== src/Simulation/Engine/Loop/Order.antt =====
-- The configurations that a task runs: those whose register is in the template, by its place there.
use ghost_meter.Prelude.{
  ◌≡◌, refl, ap, ◌∙◌, Bool, true, false, List, [], ◌∷◌, All, arith, Bool-cases, inl, inr, String,
  ◌&&◌, Option, none, some, Option-cases, string_eq, map,
}
use ghost_meter.Prelude.Int.{ℤ, leb_ℤ}
use ghost_meter.Table.{filter}
use ghost_meter.Dict.{Dict, get}
use ghost_meter.Services.Configurations.{SimulationConfigCreate}
use ghost_meter.Simulation.Engine.Loop.{
  RegisterMeta, insert, sorted, sort_key, known, with_meta, valid_configs,
}

module _ {A : Type 0} (key : A → ℤ) where
  -- No element comes before a smaller one.
  abbrev pub Least : ℤ → List A → Type 0
  Least k rows = All (λ a. leb_ℤ k (key a) ≡ true) rows

  unfoldable pub Ascends : List A → Type 0
  Ascends [] = Unit
  Ascends (a ∷ rows) = Least (key a) rows × Ascends rows

  smaller-Least : (j k : ℤ) (rows : List A) → leb_ℤ j k ≡ true → Least k rows → Least j rows
  smaller-Least j k [] le h = tt
  smaller-Least j k (a ∷ rows) le (first, rest) = (ground arith, smaller-Least j k rows le rest)

  insert-Least :
      (k : ℤ) (a : A) (rows : List A)
      → leb_ℤ k (key a) ≡ true
      → Least k rows
      → Least k (insert key a rows)
  unfolding insert
  insert-Least k a [] le h = (le, tt)
  insert-Least k a (b ∷ rows) le (first, rest) = elim (Bool-cases (leb_ℤ (key a) (key b))) [
    | inl here ↦ rw here (le, (first, rest))
    | inr later ↦ rw later (first, insert-Least k a rows le rest)
  ]

  insert-Ascends : (a : A) (rows : List A) → Ascends rows → Ascends (insert key a rows)
  unfolding insert Ascends
  insert-Ascends a [] h = (tt, tt)
  insert-Ascends a (b ∷ rows) (least, rest) = elim (Bool-cases (leb_ℤ (key a) (key b))) [
    | inl here ↦ rw here ((here, smaller-Least (key a) (key b) rows here least), (least, rest))
    | inr later ↦
        rw later (insert-Least (key b) a rows (ground arith) least, insert-Ascends a rows rest)
  ]

  pub sorted-Ascends : (rows : List A) → Ascends (sorted key rows)
  unfolding sorted Ascends
  sorted-Ascends [] = tt
  sorted-Ascends (a ∷ rows) = insert-Ascends a (sorted key rows) (sorted-Ascends rows)

  -- Elements of one key are not moved past each other.
  abbrev pub same_key : ℤ → A → Bool
  same_key k a = leb_ℤ k (key a) && leb_ℤ (key a) k

  insert-filter :
      (k : ℤ) (a : A) (rows : List A)
      → filter (same_key k) (insert key a rows) ≡ filter (same_key k) (a ∷ rows)
  unfolding insert filter
  insert-filter k a [] = refl
  insert-filter k a (b ∷ rows) = elim (Bool-cases (leb_ℤ (key a) (key b))) [
    | inl here ↦ rw here refl
    | inr later ↦ elim (Bool-cases (same_key k a)) [
      | inl same ↦
          let apart : same_key k b ≡ false = ground arith in
          rw later (rw (apart, insert-filter k a rows) refl)
      | inr other ↦ rw (later, insert-filter k a rows, other) refl
    ]
  ]

  pub sorted-filter :
      (k : ℤ) (rows : List A) → filter (same_key k) (sorted key rows) ≡ filter (same_key k) rows
  unfolding sorted filter
  sorted-filter k [] = refl
  sorted-filter k (a ∷ rows) =
      insert-filter k a (sorted key rows) ∙ ground (arith, sorted-filter k rows)

  filter-Least : (p : A → Bool) (k : ℤ) (rows : List A) → Least k rows → Least k (filter p rows)
  unfolding filter
  filter-Least p k [] h = tt
  filter-Least p k (a ∷ rows) (first, rest) = elim (Bool-cases (p a)) [
    | inl keep ↦ rw keep (first, filter-Least p k rows rest)
    | inr drop ↦ rw drop (filter-Least p k rows rest)
  ]

  filter-Ascends : (p : A → Bool) (rows : List A) → Ascends rows → Ascends (filter p rows)
  unfolding filter Ascends
  filter-Ascends p [] h = tt
  filter-Ascends p (a ∷ rows) (least, rest) = elim (Bool-cases (p a)) [
    | inl keep ↦ rw keep (filter-Least p (key a) rows least, filter-Ascends p rows rest)
    | inr drop ↦ rw drop (filter-Ascends p rows rest)
  ]

filter_comm :
    {A : Type 0} (p q : A → Bool) (rows : List A)
    → filter p (filter q rows) ≡ filter q (filter p rows)
unfolding filter
filter_comm p q [] = refl
filter_comm p q (a ∷ rows) = ground (arith, filter_comm p q rows)

module _ {R : Type 0} where
  abbrev is_some : Option (RegisterMeta R) → Bool
  is_some none = false
  is_some (some reg) = true

  -- The register of a configuration is in the template.
  abbrev pub is_known : Dict String (RegisterMeta R) → SimulationConfigCreate R → Bool
  is_known register_map config = is_some (get register_map config.register_name)

  abbrev pub configs_of :
      List (SimulationConfigCreate R × RegisterMeta R) → List (SimulationConfigCreate R)
  configs_of rows = map (λ row. row.0) rows

  known-filter :
      (register_map : Dict String (RegisterMeta R)) (configs : List (SimulationConfigCreate R))
      → configs_of (known register_map configs) ≡ filter (is_known register_map) configs
  unfolding known filter with_meta
  known-filter register_map [] = refl
  known-filter register_map (config ∷ configs) =
      elim (Option-cases (get register_map config.register_name)) [
        | inl missing ↦ rw (missing, known-filter register_map configs) refl
        | inr (reg, found) ↦ rw (found, known-filter register_map configs) refl
      ]

  known-get :
      (register_map : Dict String (RegisterMeta R)) (configs : List (SimulationConfigCreate R))
      → All (λ row. get register_map row.0.register_name ≡ some row.1) (known register_map configs)
  unfolding known with_meta
  known-get register_map [] = tt
  known-get register_map (config ∷ configs) =
      elim (Option-cases (get register_map config.register_name)) [
        | inl missing ↦ rw missing (known-get register_map configs)
        | inr (reg, found) ↦ rw found (found, known-get register_map configs)
      ]

  -- The order that a task serves its configurations in.
  pub record Serves (register_map : Dict String (RegisterMeta R))
      (configs : List (SimulationConfigCreate R))
      (rows : List (SimulationConfigCreate R × RegisterMeta R)) : Type 0 where
    pub metas : All (λ row. get register_map row.0.register_name ≡ some row.1) rows
    pub ascends : Ascends (sort_key register_map) (configs_of rows)
    pub stable :
        (k : ℤ)
        → filter (same_key (sort_key register_map) k) (configs_of rows)
          ≡ filter (same_key (sort_key register_map) k) (filter (is_known register_map) configs)

  -- A task serves just the configurations whose register the template has, each with that
  -- register, in ascending order of the registers' places, and in their own order at one place.
  pub valid_configs-Serves :
      (register_map : Dict String (RegisterMeta R)) (configs : List (SimulationConfigCreate R))
      → Serves register_map configs (valid_configs register_map configs)
  unfolding valid_configs
  valid_configs-Serves register_map configs =
      let key = sort_key register_map in
      let p = is_known register_map in
      let same = known-filter register_map (sorted key configs) in
      record {
        metas = known-get register_map (sorted key configs);
        ascends = rw same (filter-Ascends key p (sorted key configs) (sorted-Ascends key configs));
        stable = λ k.
            ap (filter (same_key key k)) same
            ∙ (filter_comm (same_key key k) p (sorted key configs)
                ∙ (ap (filter p) (sorted-filter key k configs)
                    ∙ filter_comm p (same_key key k) configs));
      }
