-- ===== src/Services/Profiles/Counts.antt =====
-- How the writes of the service change the number of defaults and of profiles of one name.
use ghost_meter.Prelude.{
  ℕ, ◌+◌, ◌≤◌, ◌≡◌, refl, ap, String, Bool, ◌&&◌, some, List, [], ◌∷◌, ◌++◌, map, arith, ◌==◌,
  ==_iff, nat_eq, string_eq, if◌then◌else◌, Bool-cases, inl, inr,
}
use ghost_meter.Services.Profiles.{
  SimulationProfile, find_profile, is_default_of, count_default, count_named, clear_default, write,
  remove_profile, given,
}
use ghost_meter.Table.{bit}

module _ {R : Type 0} where
  unfoldable pub named_by : ℕ → String → SimulationProfile R → Bool
  named_by t name p = p.template_id == t && p.name == name

  pub count_default-append :
      (t : ℕ) (profiles : List (SimulationProfile R)) (p : SimulationProfile R)
      → count_default t (profiles ++ p ∷ []) ≡ count_default t profiles + bit (is_default_of t p)
  unfolding count_default
  count_default-append t [] p = ground arith
  count_default-append t (q ∷ profiles) p = ground (arith, count_default-append t profiles p)

  pub count_named-append :
      (t : ℕ) (name : String) (profiles : List (SimulationProfile R)) (p : SimulationProfile R)
      → count_named t name (profiles ++ p ∷ [])
        ≡ count_named t name profiles + bit (named_by t name p)
  unfolding count_named named_by
  count_named-append t name [] p = ground arith
  count_named-append t name (q ∷ profiles) p = ground (arith, count_named-append t name profiles p)

  pub count_default-clear_default :
      (t u : ℕ) (profiles : List (SimulationProfile R))
      → count_default u (map (clear_default t) profiles)
        ≡ (if u == t then 0 else count_default u profiles)
  unfolding count_default clear_default
  count_default-clear_default t u [] = ground arith
  count_default-clear_default t u (p ∷ profiles) = ground (
    arith,
    count_default-clear_default t u profiles,
    ==_iff u t,
    ==_iff p.template_id t,
    ==_iff p.template_id u,
  )

  pub count_named-clear_default :
      (t u : ℕ) (name : String) (profiles : List (SimulationProfile R))
      → count_named u name (map (clear_default t) profiles) ≡ count_named u name profiles
  unfolding count_named clear_default
  count_named-clear_default t u name [] = refl
  count_named-clear_default t u name (p ∷ profiles) =
      ground (arith, count_named-clear_default t u name profiles)

  pub find-clear_default :
      (t i : ℕ) (profiles : List (SimulationProfile R)) (p : SimulationProfile R)
      → find_profile profiles i ≡ some p
      → find_profile (map (clear_default t) profiles) i ≡ some (clear_default t p)
  unfolding find_profile clear_default
  find-clear_default t i [] p e = cc
  find-clear_default t i (q ∷ profiles) p e = ground (arith, find-clear_default t i profiles p)

  pub count_default-write :
      (t i : ℕ) (f : SimulationProfile R → SimulationProfile R)
      (profiles : List (SimulationProfile R)) (p : SimulationProfile R)
      → find_profile profiles i ≡ some p
      → count_default t (write i f profiles) + bit (is_default_of t p)
        ≡ count_default t profiles + bit (is_default_of t (f p))
  unfolding count_default find_profile write
  count_default-write t i f [] p e = cc
  count_default-write t i f (q ∷ profiles) p e = elim (Bool-cases (q.id == i)) [
    | inl hit ↦
        let same : q ≡ p = ap (λ o. given o q) (rw hit at e) in rw (hit, same) (ground arith)
    | inr miss ↦ rw miss (ground (arith, count_default-write t i f profiles p (rw miss at e)))
  ]

  pub count_named-write :
      (t : ℕ) (name : String) (i : ℕ) (f : SimulationProfile R → SimulationProfile R)
      (profiles : List (SimulationProfile R)) (p : SimulationProfile R)
      → find_profile profiles i ≡ some p
      → count_named t name (write i f profiles) + bit (named_by t name p)
        ≡ count_named t name profiles + bit (named_by t name (f p))
  unfolding count_named find_profile write named_by
  count_named-write t name i f [] p e = cc
  count_named-write t name i f (q ∷ profiles) p e = elim (Bool-cases (q.id == i)) [
    | inl hit ↦
        let same : q ≡ p = ap (λ o. given o q) (rw hit at e) in rw (hit, same) (ground arith)
    | inr miss ↦ rw miss (ground (arith, count_named-write t name i f profiles p (rw miss at e)))
  ]

  pub count-remove :
      (t i : ℕ) (name : String) (profiles : List (SimulationProfile R))
      → (count_default t (remove_profile i profiles) ≤ count_default t profiles)
        × (count_named t name (remove_profile i profiles) ≤ count_named t name profiles)
  unfolding count_default count_named remove_profile
  count-remove t i name [] = (omega arith, omega arith)
  count-remove t i name (p ∷ profiles) =
      let (a, b) = count-remove t i name profiles in (ground arith, ground arith)
