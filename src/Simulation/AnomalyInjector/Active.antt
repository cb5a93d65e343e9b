-- ===== src/Simulation/AnomalyInjector/Active.antt =====
-- Which registers of a device have a real-time anomaly, after `inject` and after `remove`.
use ghost_meter.Prelude.{
  ℕ, ◌≡◌, refl, String, not, ◌&&◌, ◌||◌, Option, none, some, [], arith, ◌==◌, ==_refl, nat_eq,
  string_eq,
}
use ghost_meter.Dict.{
  Dict, get, get_or, has, has-put, has-pop, has-nil, get_or_of_none, get_or_of_some, get_or-put,
}
use ghost_meter.Floats.{Value}
use ghost_meter.Simulation.AnomalyInjector.{
  AnomalyState, AnomalyInjector, Registers, inject, remove, remove_from, get_active,
}

module _ {R : Type 0} where
  pub has-inject :
      (s : AnomalyInjector R) (d : ℕ) (name kind reg : String) (params : Dict String (Value R))
      → has (get_active (inject s d name kind params) d) reg
        ≡ (reg == name || has (get_active s d) reg)
  unfolding get_active inject
  has-inject s d name kind reg params =
      rw (get_or-put, ==_refl d) (has-put (get_or s.active d []) name reg _)

  has-remove_from :
      (s : AnomalyInjector R) (d : ℕ) (name reg : String) (o : Option (Registers R))
      → get s.active d ≡ o
      → has (get_active (remove_from s d name o) d) reg
        ≡ (not (reg == name) && has (get_active s d) reg)
  unfolding get_active remove_from
  has-remove_from s d name reg none h =
      rw (get_or_of_none s.active d [] h) (rw (has-nil (AnomalyState R)) (ground arith))
  has-remove_from s d name reg (some registers) h =
      rw (get_or-put, ==_refl d) (rw (get_or_of_some s.active d [] h) (has-pop registers name reg))

  pub has-remove :
      (s : AnomalyInjector R) (d : ℕ) (name reg : String)
      → has (get_active (remove s d name) d) reg ≡ (not (reg == name) && has (get_active s d) reg)
  unfolding remove
  has-remove s d name reg = has-remove_from s d name reg (get s.active d) refl
