-- ===== src/Dict.antt =====
-- Python's `dict`, in insertion order: a key that is set again keeps its place. Keys are UUIDs
-- (as numbers) or texts. The laws read a dict through `get`.
use ghost_meter.Prelude.{
  ◌≡◌, refl, Bool, true, false, ◌||◌, ◌&&◌, not, Option, none, some, List, [], ◌∷◌, arith, Eq, ◌==◌,
  ==_iff, if◌then◌else◌,
}

abbrev pub Dict {ℓ κ} : Type ℓ → Type κ → Type (ℓ ⊔ κ)
Dict K V = List (K × V)

module _ {ℓ κ} {K : Type ℓ} {V : Type κ} ⦃e : Eq K⦄ where
  -- `d.get(k)`
  unfoldable pub get : Dict K V → K → Option V
  get [] k = none
  get ((j, v) ∷ d) k = if k == j then some v else get d k

  -- `d[k] = v`
  unfoldable pub put : Dict K V → K → V → Dict K V
  put [] k v = (k, v) ∷ []
  put ((j, w) ∷ d) k v = if k == j then (j, v) ∷ d else (j, w) ∷ put d k v

  -- `d.pop(k, None)`; an entry of the key further down, which a dict never has, goes too.
  unfoldable pub pop : Dict K V → K → Dict K V
  pop [] k = []
  pop ((j, w) ∷ d) k = let rest = pop d k in if k == j then rest else (j, w) ∷ rest

  -- `k in d`
  unfoldable pub has : Dict K V → K → Bool
  has [] k = false
  has ((j, _) ∷ d) k = k == j || has d k

  -- `d.get(k, v)`
  unfoldable pub get_or : Dict K V → K → V → V
  unfolding get
  get_or d k v = elim (get d k) [ none ↦ v | some w ↦ w ]

  pub get-nil : (k : K) → get [] k ≡ none
  unfolding get
  get-nil k = refl

  pub get-put :
      (d : Dict K V) (k j : K) (v : V) → get (put d k v) j ≡ (if j == k then some v else get d j)
  unfolding get put
  get-put [] k j v = refl
  get-put ((i, w) ∷ d) k j v = ground (arith, get-put d k j v, ==_iff j k, ==_iff k i, ==_iff j i)

  pub get-pop : (d : Dict K V) (k j : K) → get (pop d k) j ≡ (if j == k then none else get d j)
  unfolding get pop
  get-pop [] k j = ground arith
  get-pop ((i, w) ∷ d) k j = ground (arith, get-pop d k j, ==_iff j k, ==_iff k i, ==_iff j i)

  pub has-get : (d : Dict K V) (k : K) → has d k ≡ elim (get d k) [ none ↦ false | some _ ↦ true ]
  unfolding get has
  has-get [] k = refl
  has-get ((i, w) ∷ d) k = ground (arith, has-get d k)

  pub get_or-get :
      (d : Dict K V) (k : K) (v : V) → get_or d k v ≡ elim (get d k) [ none ↦ v | some w ↦ w ]
  unfolding get_or
  get_or-get d k v = refl

  pub get_or-nil : (k : K) (v : V) → get_or [] k v ≡ v
  unfolding get_or
  get_or-nil k v = refl

  pub get_or-put :
      (d : Dict K V) (k j : K) (v w : V)
      → get_or (put d k v) j w ≡ (if j == k then v else get_or d j w)
  unfolding get_or
  get_or-put d k j v w = ground (arith, get-put d k j v)

  pub get_or-pop :
      (d : Dict K V) (k j : K) (w : V) → get_or (pop d k) j w ≡ (if j == k then w else get_or d j w)
  unfolding get_or
  get_or-pop d k j w = ground (arith, get-pop d k j)

  pub get_or_of_none : (d : Dict K V) (k : K) (v : V) → get d k ≡ none → get_or d k v ≡ v
  unfolding get_or
  get_or_of_none d k v h = ground arith

  pub get_or_of_some : (d : Dict K V) (k : K) (v : V) {w : V} → get d k ≡ some w → get_or d k v ≡ w
  unfolding get_or
  get_or_of_some d k v h = ground arith

  pub has-put : (d : Dict K V) (k j : K) (v : V) → has (put d k v) j ≡ (j == k || has d j)
  has-put d k j v = ground (arith, has-get (put d k v) j, has-get d j, get-put d k j v)

  pub has-pop : (d : Dict K V) (k j : K) → has (pop d k) j ≡ (not (j == k) && has d j)
  has-pop d k j = ground (arith, has-get (pop d k) j, has-get d j, get-pop d k j)

pub has-nil {ℓ κ} : {K : Type ℓ} (V : Type κ) ⦃e : Eq K⦄ (k : K) → has {V = V} [] k ≡ false
unfolding has
has-nil V k = refl

pub ruleset dict_laws =
    (get-nil, get-put, get-pop, get_or-nil, get_or-put, get_or-pop, has-put, has-pop)
