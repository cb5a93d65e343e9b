-- ===== src/Intervals/Groups.antt =====
-- Checking group by group decides that any two items of one key are apart.
use mathlib.Core.List.{append_assoc, append-nil}
use ghost_meter.Prelude.{
  ℕ, ◌≡◌, refl, sym, ap, ◌∙◌, Bool, true, not, ◌&&◌, ◌||◌, none, List, [], ◌∷◌, ◌++◌, ltb, arith,
  if◌then◌else◌, Eq, ◌==◌, ==_iff, ==_refl,
}
use ghost_meter.Dict.{Dict, get, get_or, put, get-put, get_or-put, get_or-nil}
use ghost_meter.Intervals.{sort_by, neighbours_ok, group_onto, groups_ok, no_overlap}
use ghost_meter.Intervals.Sorted.{apart, all_apart, pairwise_apart, Wide, neighbours_ok-sort_by}

module _ {K V : Type 0} ⦃e : Eq K⦄ where
  NodupKeys : Dict K V → Type 0
  NodupKeys [] = Unit
  NodupKeys ((k, _) ∷ d) = (get d k ≡ none) × NodupKeys d

  put-NodupKeys : (d : Dict K V) (k : K) (v : V) → NodupKeys d → NodupKeys (put d k v)
  unfolding put NodupKeys get
  put-NodupKeys [] k v h = (refl, tt)
  put-NodupKeys ((j, w) ∷ d) k v (fresh, h) =
      ground (arith, put-NodupKeys d k v h, get-put d k j v, ==_iff j k, ==_iff k j)

module _ {A K : Type 0} ⦃e : Eq K⦄ (key : A → K) where
  -- The items of one key, in order.
  unfoldable pub select : K → List A → List A
  select k [] = []
  select k (x ∷ xs) = let rest = select k xs in if k == key x then x ∷ rest else rest

  select-append :
      (k : K) (xs : List A) (x : A)
      → select k (xs ++ x ∷ []) ≡ (if k == key x then select k xs ++ x ∷ [] else select k xs)
  unfolding select
  select-append k [] x = refl
  select-append k (y ∷ xs) x = ground (arith, select-append k xs x)

  group_onto-NodupKeys :
      (d : Dict K (List A)) (xs : List A) → NodupKeys d → NodupKeys (group_onto key d xs)
  unfolding group_onto
  group_onto-NodupKeys d [] h = h
  group_onto-NodupKeys d (x ∷ xs) h =
      group_onto-NodupKeys (put d (key x) (get_or d (key x) [] ++ x ∷ [])) xs
        (put-NodupKeys d _ _ h)

  grouped :
      (d : Dict K (List A)) (seen : List A) (x : A)
      → ((k : K) → get_or d k [] ≡ select k seen)
      → (j : K)
      → get_or (put d (key x) (get_or d (key x) [] ++ x ∷ [])) j [] ≡ select j (seen ++ x ∷ [])
  grouped d seen x h j = ground (
    arith,
    get_or-put d (key x) j (get_or d (key x) [] ++ x ∷ []) [],
    select-append j seen x,
    h j,
    h (key x),
    ==_iff j (key x),
  )

  group_onto-select :
      (d : Dict K (List A)) (seen xs : List A)
      → ((k : K) → get_or d k [] ≡ select k seen)
      → (k : K) → get_or (group_onto key d xs) k [] ≡ select k (seen ++ xs)
  unfolding group_onto
  group_onto-select d seen [] h k = h k ∙ ap (select k) (sym (append-nil seen))
  group_onto-select d seen (x ∷ xs) h k =
      group_onto-select (put d (key x) (get_or d (key x) [] ++ x ∷ [])) (seen ++ x ∷ []) xs
        (λ j. grouped d seen x h j) k
      ∙ ap (select k) (append_assoc seen (x ∷ []) xs)

module _ {A K : Type 0} ⦃e : Eq K⦄ (key : A → K) (lo hi : A → ℕ) where
  -- Any two items of one key are apart.
  unfoldable pub all_apart_in_key : A → List A → Bool
  all_apart_in_key x [] = true
  all_apart_in_key x (y ∷ ys) = (not (key x == key y) || apart lo hi x y) && all_apart_in_key x ys

  unfoldable pub apart_in_keys : List A → Bool
  unfolding all_apart_in_key
  apart_in_keys [] = true
  apart_in_keys (x ∷ xs) = all_apart_in_key x xs && apart_in_keys xs

  all_apart-select :
      (x : A) (xs : List A) → all_apart lo hi x (select key (key x) xs) ≡ all_apart_in_key x xs
  unfolding all_apart select all_apart_in_key
  all_apart-select x [] = refl
  all_apart-select x (y ∷ ys) = ground (arith, all_apart-select x ys)

  apart_in_keys→select :
      (xs : List A)
      → apart_in_keys xs ≡ true
      → (k : K) → pairwise_apart lo hi (select key k xs) ≡ true
  unfolding apart_in_keys select pairwise_apart
  apart_in_keys→select [] h k = refl
  apart_in_keys→select (x ∷ xs) h k =
      ground
        (arith, ==_iff k (key x), all_apart-select x xs, apart_in_keys→select xs (ground arith) k)

  select→apart_in_keys :
      (xs : List A)
      → ((k : K) → pairwise_apart lo hi (select key k xs) ≡ true)
      → apart_in_keys xs ≡ true
  unfolding apart_in_keys select pairwise_apart
  select→apart_in_keys [] h = refl
  select→apart_in_keys (x ∷ xs) h = ground (
    arith,
    h (key x),
    ==_refl (key x),
    all_apart-select x xs,
    select→apart_in_keys xs (λ k. ground (arith, h k)),
  )

module _ {A K : Type 0} ⦃e : Eq K⦄ (lo : A → ℕ) (clash : A → A → Bool) where
  abbrev OkAt : Dict K (List A) → K → Type 0
  OkAt d k = neighbours_ok clash (sort_by lo (get_or d k [])) ≡ true

  groups_ok→get : (d : Dict K (List A)) → groups_ok lo clash d ≡ true → (k : K) → OkAt d k
  unfolding groups_ok get_or get neighbours_ok sort_by
  groups_ok→get [] h k = refl
  groups_ok→get ((j, v) ∷ d) h k = ground (arith, groups_ok→get d (ground arith) k)

  get→groups_ok :
      (d : Dict K (List A)) → NodupKeys d → ((k : K) → OkAt d k) → groups_ok lo clash d ≡ true
  unfolding groups_ok get_or get NodupKeys neighbours_ok sort_by
  get→groups_ok [] nodup h = refl
  get→groups_ok ((j, v) ∷ d) (fresh, nodup) h =
      ground (arith, h j, ==_refl j, get→groups_ok d nodup (λ k. ground (arith, h k, ==_iff k j)))

module _ {A K : Type 0} ⦃e : Eq K⦄ (key : A → K) (lo hi : A → ℕ) (clash : A → A → Bool)
    (clash-eq : (x y : A) → clash x y ≡ ltb (lo y) (hi x)) where
  select-Wide : (k : K) (xs : List A) → Wide lo hi xs → Wide lo hi (select key k xs)
  unfolding select
  select-Wide k [] w = tt
  select-Wide k (x ∷ xs) (first, w) = ground (arith, select-Wide k xs w)

  OkAt-select :
      (xs : List A) (k : K)
      → Wide lo hi xs
      → neighbours_ok clash (sort_by lo (get_or (group_onto key [] xs) k []))
        ≡ pairwise_apart lo hi (select key k xs)
  OkAt-select xs k w =
      rw (group_onto-select key [] [] xs (λ j. unfold select in get_or-nil j []) k)
        (neighbours_ok-sort_by lo hi clash clash-eq (select key k xs) (select-Wide k xs w))

  eq_of_iff : (a b : Bool) → (a ≡ true → b ≡ true) → (b ≡ true → a ≡ true) → a ≡ b
  eq_of_iff a b f g = ground arith

  -- The check passes exactly when any two items of one key are apart.
  pub no_overlap-apart_in_keys :
      (xs : List A) → Wide lo hi xs → no_overlap key lo clash xs ≡ apart_in_keys key lo hi xs
  unfolding no_overlap
  no_overlap-apart_in_keys xs w =
      let groups = group_onto key [] xs in
      eq_of_iff _ _
        (λ passed.
          select→apart_in_keys key lo hi xs
            λ k. sym (OkAt-select xs k w) ∙ groups_ok→get lo clash groups passed k)
        (λ apart.
          get→groups_ok lo clash groups (group_onto-NodupKeys key [] xs (unfold NodupKeys in tt))
            λ k. OkAt-select xs k w ∙ apart_in_keys→select key lo hi xs apart k)
