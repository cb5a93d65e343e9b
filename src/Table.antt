-- ===== src/Table.antt =====
-- A table of the database as the list of its rows: queries, and writes to the row that is found.
-- Its laws count rows.
use mathlib.Core.Path.{subst}
use ghost_meter.Prelude.{
  ℕ, suc, ◌+◌, ◌≤◌, ◌<◌, ◌≡◌, refl, ap, Bool, true, false, not, ◌&&◌, Option, none, some, List, [],
  ◌∷◌, ◌++◌, arith, All, if◌then◌else◌, Bool-cases, inl, inr,
}

abbrev pub bit : Bool → ℕ
bit true = 1
bit false = 0

abbrev pub given {ℓ} : {A : Type ℓ} → Option A → A → A
given none a = a
given (some b) a = b

module _ {ℓ} {A : Type ℓ} (hit : A → Bool) where
  unfoldable pub find : List A → Option A
  find [] = none
  find (a ∷ rows) = if hit a then some a else find rows

  unfoldable pub write : (A → A) → List A → List A
  write f [] = []
  write f (a ∷ rows) = let rest = write f rows in if hit a then f a ∷ rows else a ∷ rest

  unfoldable pub remove : List A → List A
  remove [] = []
  remove (a ∷ rows) = let rest = remove rows in if hit a then rows else a ∷ rest

  unfoldable pub count : List A → ℕ
  count [] = 0
  count (a ∷ rows) = let rest = count rows in if hit a then suc rest else rest

  unfoldable pub filter : List A → List A
  filter [] = []
  filter (a ∷ rows) = let rest = filter rows in if hit a then a ∷ rest else rest

module _ {ℓ} {A : Type ℓ} where
  pub count-append :
      (p : A → Bool) (rows more : List A) → count p (rows ++ more) ≡ count p rows + count p more
  unfolding count
  count-append p [] more = omega arith
  count-append p (a ∷ rows) more = ground (arith, count-append p rows more)

  pub count-write :
      (p hit : A → Bool) (f : A → A) (rows : List A) (a : A)
      → find hit rows ≡ some a
      → count p (write hit f rows) + bit (p a) ≡ count p rows + bit (p (f a))
  unfolding find write count
  count-write p hit f [] a e = cc
  count-write p hit f (b ∷ rows) a e = elim (Bool-cases (hit b)) [
    | inl yes' ↦
        let same : b ≡ a = ap (λ o. given o b) (rw yes' at e) in rw (yes', same) (ground arith)
    | inr no' ↦ rw no' (ground (arith, count-write p hit f rows a (rw no' at e)))
  ]

  pub count-remove : (p hit : A → Bool) (rows : List A) → count p (remove hit rows) ≤ count p rows
  unfolding remove count
  count-remove p hit [] = omega arith
  count-remove p hit (a ∷ rows) = ground (arith, count-remove p hit rows)

  pub find-hit : (hit : A → Bool) (rows : List A) (a : A) → find hit rows ≡ some a → hit a ≡ true
  unfolding find
  find-hit hit [] a e = cc
  find-hit hit (b ∷ rows) a e = elim (Bool-cases (hit b)) [
    | inl yes' ↦ let same : b ≡ a = ap (λ o. given o b) (rw yes' at e) in rw (← same) yes'
    | inr no' ↦ find-hit hit rows a (rw no' at e)
  ]

  pub count_pos :
      (hit : A → Bool) (rows : List A) (a : A) → find hit rows ≡ some a → 0 < count hit rows
  unfolding find count
  count_pos hit [] a e = cc
  count_pos hit (b ∷ rows) a e = elim (Bool-cases (hit b)) [
    | inl yes' ↦ rw yes' (omega arith)
    | inr no' ↦ rw no' (count_pos hit rows a (rw no' at e))
  ]

  pub write_missing :
      (hit : A → Bool) (f : A → A) (rows : List A) → find hit rows ≡ none → write hit f rows ≡ rows
  unfolding find write
  write_missing hit f [] e = refl
  write_missing hit f (b ∷ rows) e = elim (Bool-cases (hit b)) [
    | inl yes' ↦ let found : some b ≡ none = rw yes' at e in cc
    | inr no' ↦ rw no' (ap (◌∷◌ b) (write_missing hit f rows (rw no' at e)))
  ]

  -- Another query finds the same row, or the new version of the row that was written.
  pub find-write :
      (p hit : A → Bool) (f : A → A) (rows : List A)
      → ((a : A) → p (f a) ≡ p a)
      → ((a : A) → hit a ≡ true → p a ≡ false)
      → find p (write hit f rows) ≡ find p rows
  unfolding find write
  find-write p hit f [] keep apart = refl
  find-write p hit f (b ∷ rows) keep apart = elim (Bool-cases (hit b)) [
    | inl yes' ↦ rw yes' (rw (keep b, apart b yes'))
    | inr no' ↦ rw no' (ground (arith, find-write p hit f rows keep apart))
  ]

  pub find-write_self :
      (hit : A → Bool) (f : A → A) (rows : List A) (a : A)
      → find hit rows ≡ some a
      → hit (f a) ≡ true
      → find hit (write hit f rows) ≡ some (f a)
  unfolding find write
  find-write_self hit f [] a e still = cc
  find-write_self hit f (b ∷ rows) a e still = elim (Bool-cases (hit b)) [
    | inl yes' ↦ let same : b ≡ a = ap (λ o. given o b) (rw yes' at e) in rw (yes', same, still)
    | inr no' ↦ rw no' (rw no' (find-write_self hit f rows a (rw no' at e) still))
  ]

  pub find-append :
      (p : A → Bool) (rows more : List A) (a : A)
      → find p rows ≡ some a
      → find p (rows ++ more) ≡ some a
  unfolding find
  find-append p [] more a e = cc
  find-append p (b ∷ rows) more a e = ground (arith, find-append p rows more a)

  pub find-remove :
      (p hit : A → Bool) (rows : List A)
      → ((a : A) → hit a ≡ true → p a ≡ false)
      → find p (remove hit rows) ≡ find p rows
  unfolding find remove
  find-remove p hit [] apart = refl
  find-remove p hit (b ∷ rows) apart = elim (Bool-cases (hit b)) [
    | inl yes' ↦ rw yes' (rw (apart b yes'))
    | inr no' ↦ rw no' (ground (arith, find-remove p hit rows apart))
  ]

  pub count_missing : (p : A → Bool) (rows : List A) → find p rows ≡ none → count p rows ≡ 0
  unfolding find count
  count_missing p [] e = refl
  count_missing p (b ∷ rows) e = elim (Bool-cases (p b)) [
    | inl yes' ↦ let found : some b ≡ none = rw yes' at e in cc
    | inr no' ↦ rw no' (count_missing p rows (rw no' at e))
  ]

  find-none : (p : A → Bool) (rows : List A) → count p rows ≡ 0 → find p rows ≡ none
  unfolding find count
  find-none p [] e = refl
  find-none p (b ∷ rows) e = elim (Bool-cases (p b)) [
    | inl yes' ↦ absurd (ground (arith, yes'))
    | inr no' ↦ rw no' (find-none p rows (rw no' at e))
  ]

  -- The only row that is hit is found no more after it is removed.
  pub find-remove_self :
      (hit : A → Bool) (rows : List A) → count hit rows ≤ 1 → find hit (remove hit rows) ≡ none
  unfolding find remove count
  find-remove_self hit [] one = refl
  find-remove_self hit (b ∷ rows) one = elim (Bool-cases (hit b)) [
    | inl yes' ↦ rw yes' (find-none hit rows (ground (arith, yes')))
    | inr no' ↦ rw no' (rw no' (find-remove_self hit rows (rw no' at one)))
  ]

  pub count-write_keep :
      (p hit : A → Bool) (f : A → A) (rows : List A)
      → ((a : A) → p (f a) ≡ p a)
      → count p (write hit f rows) ≡ count p rows
  unfolding write count
  count-write_keep p hit f [] keep = refl
  count-write_keep p hit f (a ∷ rows) keep =
      ground (arith, count-write_keep p hit f rows keep, keep a)

  count_none :
      (p hit : A → Bool) (rows : List A)
      → count hit rows ≡ 0
      → count (λ a. p a && not (hit a)) rows ≡ count p rows
  unfolding count
  count_none p hit [] none_hit = refl
  count_none p hit (a ∷ rows) none_hit = ground (arith, count_none p hit rows)

  -- The rows with `p`, but for the only row that is hit.
  pub count_others :
      (p hit : A → Bool) (rows : List A) (a : A)
      → find hit rows ≡ some a
      → count hit rows ≤ 1
      → count p rows ≡ count (λ b. p b && not (hit b)) rows + bit (p a)
  unfolding count find
  count_others p hit [] a e one = cc
  count_others p hit (b ∷ rows) a e one = elim (Bool-cases (hit b)) [
    | inl yes' ↦
        let same : b ≡ a = ap (λ o. given o b) (rw yes' at e) in
        rw (← same) (ground (arith, count_none p hit rows))
    | inr no' ↦ ground (arith, count_others p hit rows a (rw no' at e))
  ]

module _ {A : Type 0} where
  pub All-remove :
      (P : A → Type 0) (hit : A → Bool) (rows : List (A)) → All P rows → All P (remove hit rows)
  unfolding remove
  All-remove P hit [] h = tt
  All-remove P hit (row ∷ rows) (first, rest) = elim (Bool-cases (hit row)) [
    | inl here ↦ rw here rest
    | inr later ↦ rw later (first, All-remove P hit rows rest)
  ]

  pub All-write :
      (P : A → Type 0) (hit : A → Bool) (f : A → A) (rows : List (A))
      → ((t : A) → P (f t))
      → All P rows
      → All P (write hit f rows)
  unfolding write
  All-write P hit f [] new h = tt
  All-write P hit f (row ∷ rows) new (first, rest) = elim (Bool-cases (hit row)) [
    | inl here ↦ rw here (new row, rest)
    | inr later ↦ rw later (first, All-write P hit f rows new rest)
  ]

  pub find-All :
      (P : A → Type 0) (hit : A → Bool) (rows : List (A)) (t : A)
      → find hit rows ≡ some t
      → All P rows
      → P t
  unfolding find
  find-All P hit [] t e h = cc
  find-All P hit (row ∷ rows) t e (first, rest) = elim (Bool-cases (hit row)) [
    | inl here ↦ let same : row ≡ t = ap (λ o. given o row) (rw here at e) in subst P same first
    | inr later ↦ find-All P hit rows t (rw later at e) rest
  ]
