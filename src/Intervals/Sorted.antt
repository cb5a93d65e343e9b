-- ===== src/Intervals/Sorted.antt =====
-- On a sorted list comparing neighbours decides whether all items are pairwise apart.
use ghost_meter.Prelude.{
  ℕ, ◌≤◌, ◌<◌, ◌≡◌, refl, ap, ◌∙◌, Bool, true, ◌&&◌, ◌||◌, List, [], ◌∷◌, leb, ltb, arith, All,
  Bool-cases, inl, inr,
}
use ghost_meter.Intervals.{insert_by, sort_by, neighbours_ok}

-- An item takes up the numbers from `lo` on and below `hi`.
module _ {A : Type 0} (lo hi : A → ℕ) where
  abbrev pub apart : A → A → Bool
  apart x y = leb (hi x) (lo y) || leb (hi y) (lo x)

  unfoldable pub all_apart : A → List A → Bool
  all_apart x [] = true
  all_apart x (y ∷ ys) = apart x y && all_apart x ys

  -- Every two items are apart.
  unfoldable pub pairwise_apart : List A → Bool
  pairwise_apart [] = true
  pairwise_apart (x ∷ xs) = all_apart x xs && pairwise_apart xs

  all_apart-insert_by :
      (z x : A) (ys : List A) → all_apart z (insert_by lo x ys) ≡ (apart z x && all_apart z ys)
  unfolding all_apart insert_by
  all_apart-insert_by z x [] = refl
  all_apart-insert_by z x (y ∷ ys) = ground (arith, all_apart-insert_by z x ys)

  pairwise_apart-insert_by :
      (x : A) (ys : List A)
      → pairwise_apart (insert_by lo x ys) ≡ (all_apart x ys && pairwise_apart ys)
  unfolding pairwise_apart insert_by all_apart
  pairwise_apart-insert_by x [] = refl
  pairwise_apart-insert_by x (y ∷ ys) =
      ground (arith, pairwise_apart-insert_by x ys, all_apart-insert_by y x ys)

  all_apart-sort_by : (z : A) (xs : List A) → all_apart z (sort_by lo xs) ≡ all_apart z xs
  unfolding sort_by all_apart
  all_apart-sort_by z [] = refl
  all_apart-sort_by z (x ∷ xs) =
      all_apart-insert_by z x (sort_by lo xs) ∙ ap (λ b. apart z x && b) (all_apart-sort_by z xs)

  pairwise_apart-sort_by : (xs : List A) → pairwise_apart (sort_by lo xs) ≡ pairwise_apart xs
  unfolding sort_by pairwise_apart
  pairwise_apart-sort_by [] = refl
  pairwise_apart-sort_by (x ∷ xs) =
      pairwise_apart-insert_by x (sort_by lo xs)
      ∙ rw (all_apart-sort_by x xs, pairwise_apart-sort_by xs)

  abbrev From : ℕ → List A → Type 0
  From n = All (λ y. n ≤ lo y)

  IsSorted : List A → Type 0
  IsSorted [] = Unit
  IsSorted (x ∷ xs) = From (lo x) xs × IsSorted xs

  insert_by-From : (n : ℕ) (x : A) (ys : List A) → n ≤ lo x → From n ys → From n (insert_by lo x ys)
  unfolding insert_by
  insert_by-From n x [] h k = (h, tt)
  insert_by-From n x (y ∷ ys) h (first, k) = ground (arith, insert_by-From n x ys h k)

  From-le : (m n : ℕ) (ys : List A) → m ≤ n → From n ys → From m ys
  From-le m n [] h k = tt
  From-le m n (y ∷ ys) h (first, k) = (omega arith, From-le m n ys h k)

  insert_by-IsSorted : (x : A) (ys : List A) → IsSorted ys → IsSorted (insert_by lo x ys)
  unfolding insert_by IsSorted
  insert_by-IsSorted x [] h = (tt, tt)
  insert_by-IsSorted x (y ∷ ys) (from, h) = elim (Bool-cases (leb (lo x) (lo y))) [
    | inl le ↦
        let first : lo x ≤ lo y = ground arith in
        rw le ((first, From-le (lo x) (lo y) ys first from), (from, h))
    | inr gt ↦ rw gt (insert_by-From (lo y) x ys (ground arith) from, insert_by-IsSorted x ys h)
  ]

  sort_by-IsSorted : (xs : List A) → IsSorted (sort_by lo xs)
  unfolding sort_by IsSorted
  sort_by-IsSorted [] = tt
  sort_by-IsSorted (x ∷ xs) = insert_by-IsSorted x (sort_by lo xs) (sort_by-IsSorted xs)

  From-all_apart : (x : A) (ys : List A) → From (hi x) ys → all_apart x ys ≡ true
  unfolding all_apart
  From-all_apart x [] h = refl
  From-all_apart x (y ∷ ys) (first, h) = ground (arith, From-all_apart x ys h)

  -- An item takes up some number.
  abbrev pub Wide : List A → Type 0
  Wide = All (λ x. lo x < hi x)

  insert_by-Wide : (x : A) (ys : List A) → lo x < hi x → Wide ys → Wide (insert_by lo x ys)
  unfolding insert_by
  insert_by-Wide x [] h k = (h, tt)
  insert_by-Wide x (y ∷ ys) h (first, k) = ground (arith, insert_by-Wide x ys h k)

  sort_by-Wide : (xs : List A) → Wide xs → Wide (sort_by lo xs)
  unfolding sort_by
  sort_by-Wide [] h = tt
  sort_by-Wide (x ∷ xs) (first, h) = insert_by-Wide x (sort_by lo xs) first (sort_by-Wide xs h)

module _ {A : Type 0} (lo hi : A → ℕ) (clash : A → A → Bool)
    (clash-eq : (x y : A) → clash x y ≡ ltb (lo y) (hi x)) where
  neighbours-pairwise :
      (xs : List A)
      → IsSorted lo hi xs
      → Wide lo hi xs
      → neighbours_ok clash xs ≡ pairwise_apart lo hi xs
  unfolding neighbours_ok pairwise_apart all_apart IsSorted
  neighbours-pairwise [] h w = refl
  neighbours-pairwise (x ∷ []) h w = refl
  neighbours-pairwise (x ∷ (y ∷ ys)) ((first, from), (from', h)) (wide_x, wide) =
      elim (Bool-cases (ltb (lo y) (hi x))) [
        | inl clashes ↦ ground (arith, clash-eq x y)
        | inr clear ↦ ground (
          arith,
          clash-eq x y,
          neighbours-pairwise (y ∷ ys) (from', h) wide,
          From-all_apart lo hi x ys (From-le lo hi (hi x) (lo y) ys (ground arith) from'),
        )
      ]

  -- Sorting and comparing neighbours decides that every two items are apart.
  pub neighbours_ok-sort_by :
      (xs : List A) → Wide lo hi xs → neighbours_ok clash (sort_by lo xs) ≡ pairwise_apart lo hi xs
  neighbours_ok-sort_by xs w =
      neighbours-pairwise (sort_by lo xs) (sort_by-IsSorted lo hi xs) (sort_by-Wide lo hi xs w)
      ∙ pairwise_apart-sort_by lo hi xs
