-- ===== src/Simulation/Engine/Rows.antt =====
-- The restarts in a row behind each task and behind each restart that waits.
use ghost_meter.Prelude.{
  ℕ, zero, suc, ◌-◌, ◌*◌, ◌^◌, ◌≤◌, ◌≡◌, refl, sym, ap, ◌∙◌, Option, none, some, List, [], ◌∷◌,
  arith, false, ◌==◌, ==_refl, ==_iff, nat_eq, if◌then◌else◌, Bool-cases, inl, inr,
}
use ghost_meter.Dict.{Dict, get, put, pop, has, has-get, get-put, get-pop}
use ghost_meter.Simulation.Engine.{DeviceTaskState, Restart, Engine, restart_at, without, count_of}

-- A function on the devices, with one value replaced.
unfoldable pub at : ℕ → ℕ → (ℕ → ℕ) → ℕ → ℕ
at d n f j = if j == d then n else f j

unfoldable pub nth : ℕ → List ℕ → ℕ
nth i [] = 0
nth zero (n ∷ ns) = n
nth (suc i) (n ∷ ns) = nth i ns

unfoldable pub drop_at : ℕ → List ℕ → List ℕ
drop_at i [] = []
drop_at zero (n ∷ ns) = ns
drop_at (suc i) (n ∷ ns) = n ∷ drop_at i ns

-- A restart that waits is the n-th in a row, one of the first five, and its delay doubles from two
-- seconds.
unfoldable pub Waits : List Restart → List ℕ → Type 0
Waits [] [] = Unit
Waits [] (n ∷ ns) = ⊥
Waits (r ∷ rs) [] = ⊥
Waits (r ∷ rs) (n ∷ ns) =
    (r.restart_count ≡ n) × (1 ≤ n) × (n ≤ 5) × (r.delay ≡ 2 ^ n) × Waits rs ns

-- The restarts in a row behind each task.
abbrev pub Counted : Dict ℕ DeviceTaskState → (ℕ → ℕ) → Type 0
Counted states depth =
    (d : ℕ) (state : DeviceTaskState)
    → get states d ≡ some state
    → (state.restart_count ≡ depth d) × (depth d ≤ 5)

pub record IsBounded {R : Type 0} (s : Engine R) (depth : ℕ → ℕ) (depths : List ℕ) : Type 0 where
  pub counted : Counted s.device_states depth
  pub waits : Waits s.restarts depths

pub put-Counted :
    (states : Dict ℕ DeviceTaskState) (depth : ℕ → ℕ) (d : ℕ) (state : DeviceTaskState)
    → state.restart_count ≡ depth d
    → depth d ≤ 5
    → Counted states depth
    → Counted (put states d state) depth
unfolding count_of
put-Counted states depth d state count le h j found e = elim (Bool-cases (j == d)) [
  | inl same ↦
      let q : some state ≡ some found = rw (get-put states d j state, same) at e in
      let same_count : state.restart_count ≡ found.restart_count = ap count_of q in
      let here : depth j ≡ depth d = ap depth ((==_iff j d).0 same) in
      (sym same_count ∙ count ∙ sym here, omega (arith, here, le))
  | inr other ↦ h j found (rw (get-put states d j state, other) at e)
]

pub pop-Counted :
    (states : Dict ℕ DeviceTaskState) (depth : ℕ → ℕ) (d : ℕ)
    → Counted states depth
    → Counted (pop states d) depth
pop-Counted states depth d h j found e = ground (arith, get-pop states d j, h j found)

-- Nothing is said of a device that has no task.
pub at-Counted :
    (states : Dict ℕ DeviceTaskState) (depth : ℕ → ℕ) (d n : ℕ)
    → get states d ≡ none
    → Counted states depth
    → Counted states (at d n depth)
unfolding at
at-Counted states depth d n absent h j found e = elim (Bool-cases (j == d)) [
  | inl same ↦
      let here : none ≡ some found =
        sym absent ∙ (ap (get states) (sym ((==_iff j d).0 same)) ∙ e) in
      cc
  | inr other ↦ rw other (h j found e)
]

pub at_here : (d n : ℕ) (depth : ℕ → ℕ) → at d n depth d ≡ n
unfolding at
at_here d n depth = rw (==_refl d)

pub has-none :
    (states : Dict ℕ DeviceTaskState) (d : ℕ) → has states d ≡ false → get states d ≡ none
has-none states d e = ground (arith, has-get states d)

pub restart_at-Waits :
    (i : ℕ) (rs : List Restart) (ns : List ℕ) (r : Restart)
    → Waits rs ns
    → restart_at i rs ≡ some r
    → (r.restart_count ≡ nth i ns) × (nth i ns ≤ 5)
unfolding restart_at Waits nth
restart_at-Waits i [] [] r h e = cc
restart_at-Waits i [] (n ∷ ns) r h e = elim h [ ]
restart_at-Waits i (q ∷ rs) [] r h e = elim h [ ]
restart_at-Waits zero (q ∷ rs) (n ∷ ns) r (count, _, le, _, _) e =
    let same : q ≡ r = cc in (rw (← same) count, le)
restart_at-Waits (suc i) (q ∷ rs) (n ∷ ns) r (_, _, _, _, h) e = restart_at-Waits i rs ns r h e

pub without-Waits :
    (i : ℕ) (rs : List Restart) (ns : List ℕ) → Waits rs ns → Waits (without i rs) (drop_at i ns)
unfolding without Waits drop_at
without-Waits i [] [] h = tt
without-Waits i [] (n ∷ ns) h = elim h [ ]
without-Waits i (q ∷ rs) [] h = elim h [ ]
without-Waits zero (q ∷ rs) (n ∷ ns) (_, _, _, _, h) = h
without-Waits (suc i) (q ∷ rs) (n ∷ ns) (a, b, c, d, h) = (a, b, c, d, without-Waits i rs ns h)

pub doubles : (n : ℕ) → 1 ≤ n → n ≤ 5 → 2 * 2 ^ (n - 1) ≡ 2 ^ n
doubles zero low high = omega arith
doubles (suc zero) low high = refl
doubles (suc (suc zero)) low high = refl
doubles (suc (suc (suc zero))) low high = refl
doubles (suc (suc (suc (suc zero)))) low high = refl
doubles (suc (suc (suc (suc (suc zero))))) low high = refl
doubles (suc (suc (suc (suc (suc (suc n)))))) low high = omega arith

pub popped-none : (states : Dict ℕ DeviceTaskState) (d : ℕ) → get (pop states d) d ≡ none
popped-none states d = rw (get-pop states d d, ==_refl d)

-- The task that a restart launches goes on with the row of the restart.
unfoldable pub woken_depth : Option Restart → ℕ → (ℕ → ℕ) → ℕ → ℕ
woken_depth none n depth = depth
woken_depth (some r) n depth = at r.device_id n depth
