-- ===== src/Services/Templates/Overlap.antt =====
-- The address check decides that no two registers of one function code share an address.
use ghost_meter.Prelude.{
  ℕ, suc, ◌+◌, ◌-◌, ◌≤◌, ◌≡◌, ◌↔◌, refl, ap, ◌∙◌, Bool, true, not, ◌||◌, Option, none, some, List,
  [], ◌∷◌, arith, All, map, leb→le, Bool-cases, leb, ◌==◌, nat_eq, string_eq, inl, inr, ◌⊎◌,
}
use ghost_meter.Errors.{ok, err, validation, raise_if}
use ghost_meter.Intervals.Sorted.{Wide}
use ghost_meter.Intervals.Groups.{apart_in_keys, all_apart_in_key, no_overlap-apart_in_keys}
use ghost_meter.Services.Templates.{
  RegisterDefinition, AddressRange, register_count, range_of, ranges_of, overlaps,
  validate_no_address_overlap,
}

abbrev count_or_one : Option ℕ → ℕ
count_or_one none = 1
count_or_one (some n) = n

lo : AddressRange → ℕ
lo r = r.start

hi : AddressRange → ℕ
hi r = suc r.end

module _ (f g s m t n : ℕ) (m_pos : 1 ≤ m) (n_pos : 1 ≤ n) where
  abbrev apart : Bool
  apart = not (f == g) || (leb (suc (s + m - 1)) t || leb (suc (t + n - 1)) s)

  apart→disjoint : apart ≡ true → f ≡ g → (s + m ≤ t) ⊎ (t + n ≤ s)
  apart→disjoint h same = elim (Bool-cases (leb (suc (s + m - 1)) t)) [
    | inl le ↦ inl (omega (arith, leb→le _ _ le))
    | inr gt ↦ inr (ground arith)
  ]

  disjoint→apart : (f ≡ g → (s + m ≤ t) ⊎ (t + n ≤ s)) → apart ≡ true
  disjoint→apart h = elim (Bool-cases (f == g)) [
    | inl same ↦ ground (arith, h (ground arith))
    | inr other ↦ rw other
  ]

module _ {R : Type 0} where
  -- How many words a register takes; 1 for a type that no register has.
  abbrev pub words : RegisterDefinition R → ℕ
  words reg = count_or_one (register_count reg.data_type)

  -- Two registers of different function codes, or at disjoint addresses.
  abbrev pub Disjoint : RegisterDefinition R → RegisterDefinition R → Type 0
  Disjoint a b =
      a.function_code ≡ b.function_code
      → (a.address + words a ≤ b.address) ⊎ (b.address + words b ≤ a.address)

  abbrev pub PairwiseDisjoint : List (RegisterDefinition R) → Type 0
  PairwiseDisjoint [] = Unit
  PairwiseDisjoint (reg ∷ regs) = All (Disjoint reg) regs × PairwiseDisjoint regs

  abbrev pub KnownTypes : List (RegisterDefinition R) → Type 0
  KnownTypes = All (λ reg. (n : ℕ) × (register_count reg.data_type ≡ some n))

  words_pos : (reg : RegisterDefinition R) → 1 ≤ words reg
  unfolding register_count
  words_pos reg = ground arith

  abbrev range : RegisterDefinition R → AddressRange
  range reg = record {
    function_code = reg.function_code;
    name = reg.name;
    start = reg.address;
    end = reg.address + words reg - 1;
  }

  range_of-range :
      (reg : RegisterDefinition R) (n : ℕ)
      → register_count reg.data_type ≡ some n
      → range_of reg (register_count reg.data_type) ≡ ok (range reg)
  unfolding range_of
  range_of-range reg n h = ground arith

  ranges_of-map :
      (regs : List (RegisterDefinition R)) → KnownTypes regs → ranges_of regs ≡ ok (map range regs)
  unfolding ranges_of
  ranges_of-map [] h = refl
  ranges_of-map (reg ∷ regs) ((n, known), h) =
      ground (arith, range_of-range reg n known, ranges_of-map regs h)

  range-Wide : (regs : List (RegisterDefinition R)) → Wide lo hi (map range regs)
  unfolding lo hi
  range-Wide [] = tt
  range-Wide (reg ∷ regs) = (omega (arith, words_pos reg), range-Wide regs)

  gaps→Disjoint :
      (a : RegisterDefinition R) (bs : List (RegisterDefinition R))
      → all_apart_in_key (λ r. r.function_code) lo hi (range a) (map range bs) ≡ true
      → All (Disjoint a) bs
  unfolding all_apart_in_key lo hi
  gaps→Disjoint a [] h = tt
  gaps→Disjoint a (b ∷ bs) h = (
    apart→disjoint a.function_code b.function_code a.address (words a) b.address (words b)
        (words_pos a) (words_pos b) (ground arith),
    gaps→Disjoint a bs (ground arith),
  )

  Disjoint→gaps :
      (a : RegisterDefinition R) (bs : List (RegisterDefinition R))
      → All (Disjoint a) bs
      → all_apart_in_key (λ r. r.function_code) lo hi (range a) (map range bs) ≡ true
  unfolding all_apart_in_key lo hi
  Disjoint→gaps a [] h = refl
  Disjoint→gaps a (b ∷ bs) (first, h) =
      rw
        (disjoint→apart a.function_code b.function_code a.address (words a) b.address (words b)
          (words_pos a) (words_pos b) first)
        (Disjoint→gaps a bs h)

  apart_iff :
      (regs : List (RegisterDefinition R))
      → (apart_in_keys (λ r. r.function_code) lo hi (map range regs) ≡ true) ↔ PairwiseDisjoint regs
  unfolding apart_in_keys
  apart_iff [] = (λ h. tt, λ h. refl)
  apart_iff (reg ∷ regs) = (
    λ h. (gaps→Disjoint reg regs (ground arith), (apart_iff regs).0 (ground arith)),
    λ (first, h). rw (Disjoint→gaps reg regs first) ((apart_iff regs).1 h),
  )

  validate-no_overlap :
      (regs : List (RegisterDefinition R))
      → KnownTypes regs
      → validate_no_address_overlap regs
        ≡ raise_if (not (apart_in_keys (λ r. r.function_code) lo hi (map range regs))) validation
  unfolding validate_no_address_overlap
  validate-no_overlap regs known = rw (ranges_of-map regs known) (
      ap (λ b. raise_if (not b) validation)
        (unfold lo hi in
          no_overlap-apart_in_keys (λ (r : AddressRange). r.function_code) lo hi overlaps
            (λ x y. ground arith) (map range regs) (range-Wide regs)))

  -- For registers of known data types the address check passes exactly when no two registers of
  -- one function code share an address, and otherwise raises a validation error.
  pub validate_iff_disjoint :
      (regs : List (RegisterDefinition R))
      → KnownTypes regs
      → ((validate_no_address_overlap regs ≡ ok tt) ↔ PairwiseDisjoint regs)
        × ((validate_no_address_overlap regs ≡ ok tt)
            ⊎ (validate_no_address_overlap regs ≡ err validation))
  validate_iff_disjoint regs known =
      let e = validate-no_overlap regs known in
      (
        (
          λ passed. (apart_iff regs).0 (ground (arith, e)),
          λ disjoint. e ∙ rw ((apart_iff regs).1 disjoint),
        ),
        elim (Bool-cases
            (apart_in_keys (λ (r : AddressRange). r.function_code) lo hi (map range regs))) [
              | inl yes' ↦ inl (e ∙ rw yes')
              | inr no' ↦ inr (e ∙ rw no')
            ],
      )
