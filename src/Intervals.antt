-- ===== src/Intervals.antt =====
-- The overlap check that two services share: items are grouped by a key, each group is sorted by
-- where its items begin, and neighbours are compared.
pub mod Sorted
pub mod Groups
use ghost_meter.Prelude.{
  ℕ, Bool, true, false, not, ◌&&◌, List, [], ◌∷◌, ◌++◌, leb, Eq, if◌then◌else◌,
}
use ghost_meter.Dict.{Dict, get_or, put}

module _ {A : Type 0} (lo : A → ℕ) where
  -- `sorted(xs, key=lo)`, which is stable
  unfoldable pub insert_by : A → List A → List A
  insert_by x [] = x ∷ []
  insert_by x (y ∷ ys) =
      let rest = insert_by x ys in if leb (lo x) (lo y) then x ∷ (y ∷ ys) else y ∷ rest

  unfoldable pub sort_by : List A → List A
  unfolding insert_by
  sort_by [] = []
  sort_by (x ∷ xs) = insert_by x (sort_by xs)

module _ {A : Type 0} (clash : A → A → Bool) where
  -- `for i in range(len(xs) - 1)`, on the neighbours `xs[i]` and `xs[i + 1]`
  unfoldable pub neighbours_ok : List A → Bool
  neighbours_ok [] = true
  neighbours_ok (x ∷ []) = true
  neighbours_ok (x ∷ (y ∷ ys)) = not (clash x y) && neighbours_ok (y ∷ ys)

module _ {A K : Type 0} ⦃e : Eq K⦄ (key : A → K) where
  -- `groups.setdefault(key(x), []).append(x)` for each item
  unfoldable pub group_onto : Dict K (List A) → List A → Dict K (List A)
  group_onto d [] = d
  group_onto d (x ∷ xs) = group_onto (put d (key x) (get_or d (key x) [] ++ x ∷ [])) xs

-- The loop over `groups.items()`.
module _ {A K : Type 0} (lo : A → ℕ) (clash : A → A → Bool) where
  unfoldable pub groups_ok : Dict K (List A) → Bool
  groups_ok [] = true
  groups_ok ((_, xs) ∷ d) = neighbours_ok clash (sort_by lo xs) && groups_ok d

module _ {A K : Type 0} ⦃e : Eq K⦄ (key : A → K) (lo : A → ℕ) (clash : A → A → Bool) where
  unfoldable pub no_overlap : List A → Bool
  unfolding group_onto groups_ok neighbours_ok sort_by
  no_overlap xs = groups_ok lo clash (group_onto key [] xs)
