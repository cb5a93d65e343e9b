-- ===== src/Simulation/Engine/Restarts.antt =====
-- How often and how late a crashed task is restarted. How many restarts in a row are behind a task
-- is counted beside the engine, by what its calls do and not by the count that it stores.
use ghost_meter.Prelude.{
  ℕ, suc, ◌+◌, ◌≤◌, ◌≡◌, refl, sym, ◌∙◌, Option, none, some, List, [], ◌∷◌, arith, true, false,
  length, ltb, nat_eq, if◌then◌else◌, Bool-cases, Option-cases, inl, inr,
}
use ghost_meter.Dict.{get, pop, has, has-get}
use ghost_meter.Errors.{Error, Result, ok, err}
use ghost_meter.Simulation.AnomalyInjector.{AnomalyInjector}
use ghost_meter.Simulation.Engine.{
  DeviceTaskState, Restart, Engine, Loaded, Ending, cancelled, returned, raised, restart_at,
  without, count_of, launch_device_task, start_device, enter_loop, crash_with, crash,
  set_device_error, schedule_restart, on_task_done, or_error, wake, delayed_restart, stop_task,
  stop_with, stop_device, start_after, reload_device, shutdown, max_restart_attempts,
}
use ghost_meter.Simulation.Engine.Rows.{
  at, nth, drop_at, Waits, Counted, IsBounded, put-Counted, pop-Counted, at-Counted, at_here,
  has-none, restart_at-Waits, without-Waits, doubles, popped-none, woken_depth,
}

module _ {R : Type 0} where
  -- A start that finds no task begins a new row.
  unfoldable pub started_depth : Engine R → ℕ → (ℕ → ℕ) → ℕ → ℕ
  started_depth s d depth = if has s.device_states d then depth else at d 0 depth

  -- A crash adds one to the row of the task, or to an empty row where the table has no task.
  unfoldable pub crashed_depth : Engine R → ℕ → (ℕ → ℕ) → ℕ
  crashed_depth s d depth = suc (if has s.device_states d then depth d else 0)

  -- A callback that lets a restart wait.
  unfoldable pub done_depths : Engine R → ℕ → Ending → (ℕ → ℕ) → List ℕ → List ℕ
  done_depths s d ending depth depths =
      if ltb (length s.restarts) (length (on_task_done s d ending).restarts)
      then crashed_depth s d depth ∷ depths
      else depths

  launch-IsBounded :
      (s : Engine R) (d n : ℕ) (loaded : Result (Loaded R)) (depth : ℕ → ℕ) (depths : List ℕ)
      → n ≡ depth d
      → depth d ≤ 5
      → IsBounded s depth depths
      → IsBounded (launch_device_task s d n loaded).0 depth depths
  unfolding launch_device_task
  launch-IsBounded s d n (err e) depth depths count le h = h
  launch-IsBounded s d n (ok loaded) depth depths count le h =
      elim (Bool-cases loaded.has_configs) [
        | inl some_configs ↦ rw some_configs (record {
          counted = put-Counted s.device_states depth d _ count le h.counted;
          waits = h.waits;
        })
        | inr no_configs ↦ rw no_configs h
      ]

  started_depth-IsBounded :
      (s : Engine R) (d : ℕ) (depth : ℕ → ℕ) (depths : List ℕ)
      → IsBounded s depth depths
      → IsBounded s (started_depth s d depth) depths
  unfolding started_depth
  started_depth-IsBounded s d depth depths h = elim (Bool-cases (has s.device_states d)) [
    | inl running ↦ rw running h
    | inr absent ↦ rw absent (record {
      counted = at-Counted s.device_states depth d 0 (has-none s.device_states d absent) h.counted;
      waits = h.waits;
    })
  ]

  start_device-IsBounded :
      (s : Engine R) (d : ℕ) (loaded : Result (Loaded R)) (depth : ℕ → ℕ) (depths : List ℕ)
      → IsBounded s depth depths
      → IsBounded (start_device s d loaded).0 (started_depth s d depth) depths
  unfolding start_device started_depth
  start_device-IsBounded s d loaded depth depths h = elim (Bool-cases (has s.device_states d)) [
    | inl running ↦ rw running h
    | inr absent ↦
        let zero' = at_here d 0 depth in
        rw absent (
          launch-IsBounded s d 0 loaded (at d 0 depth) depths (sym zero') (omega (arith, zero'))
            (record {
              counted =
                  at-Counted s.device_states depth d 0 (has-none s.device_states d absent)
                    h.counted;
              waits = h.waits;
            }))
  ]

  crash_with-IsBounded :
      (s : Engine R) (d : ℕ) (e : Error) (found : Option DeviceTaskState) (depth : ℕ → ℕ)
      (depths : List ℕ)
      → get s.device_states d ≡ found
      → IsBounded s depth depths
      → IsBounded (crash_with s d e found) depth depths
  unfolding crash_with
  crash_with-IsBounded s d e none depth depths q h = h
  crash_with-IsBounded s d e (some state) depth depths q h =
      let (count, le) = h.counted d state q in
      record { counted = put-Counted s.device_states depth d _ count le h.counted; waits = h.waits }

  -- The count that the callback computes is that of the row.
  count_of-crashed_depth :
      (s : Engine R) (d : ℕ) (depth : ℕ → ℕ)
      → Counted s.device_states depth
      → (count_of (get s.device_states d) + 1 ≡ crashed_depth s d depth)
        × (crashed_depth s d depth ≤ 6)
  unfolding count_of crashed_depth
  count_of-crashed_depth s d depth h = elim (Option-cases (get s.device_states d)) [
    | inl missing ↦
        let absent : has s.device_states d ≡ false = ground (arith, has-get s.device_states d) in
        rw (missing, absent) (refl, omega arith)
    | inr (state, found) ↦
        let present : has s.device_states d ≡ true = ground (arith, has-get s.device_states d) in
        let (count, le) = h d state found in
        rw (found, present) (omega (arith, count), omega (arith, le))
  ]

  schedule_restart-IsBounded :
      (s : Engine R) (d n : ℕ) (depth : ℕ → ℕ) (depths : List ℕ)
      → 1 ≤ n
      → IsBounded s depth depths
      → IsBounded (schedule_restart s d n) depth (
          if ltb (length s.restarts) (length (schedule_restart s d n).restarts)
          then n ∷ depths
          else depths)
  unfolding schedule_restart set_device_error Waits
  schedule_restart-IsBounded s d n depth depths low h =
      elim (Bool-cases (ltb max_restart_attempts n)) [
        | inl late ↦
            let same : ltb (length s.restarts) (length s.restarts) ≡ false = ground arith in
            rw (late, same)
              (record { counted = pop-Counted s.device_states depth d h.counted; waits = h.waits })
        | inr early ↦
            let le : n ≤ 5 = ground arith in
            let more : ltb (length s.restarts) (suc (length s.restarts)) ≡ true = ground arith in
            rw (early, more)
              (record { counted = h.counted; waits = (refl, low, le, doubles n low le, h.waits) })
      ]

  on_task_done-IsBounded :
      (s : Engine R) (d : ℕ) (ending : Ending) (depth : ℕ → ℕ) (depths : List ℕ)
      → IsBounded s depth depths
      → IsBounded (on_task_done s d ending) depth (done_depths s d ending depth depths)
  unfolding on_task_done done_depths
  on_task_done-IsBounded s d cancelled depth depths h =
      let same : ltb (length s.restarts) (length s.restarts) ≡ false = ground arith in rw same h
  on_task_done-IsBounded s d returned depth depths h =
      let same : ltb (length s.restarts) (length s.restarts) ≡ false = ground arith in
      rw same (record { counted = pop-Counted s.device_states depth d h.counted; waits = h.waits })
  on_task_done-IsBounded s d (raised e) depth depths h =
      let (count, _) = count_of-crashed_depth s d depth h.counted in
      rw (← count) (
        schedule_restart-IsBounded s d (count_of (get s.device_states d) + 1) depth depths
          (omega arith) h)

  or_error-IsBounded :
      (d : ℕ) (s : Engine R) (r : Result (Unit {0})) (depth : ℕ → ℕ) (depths : List ℕ)
      → IsBounded s depth depths
      → IsBounded (or_error d (s, r)) depth depths
  unfolding or_error set_device_error
  or_error-IsBounded d s (ok _) depth depths h = h
  or_error-IsBounded d s (err e) depth depths h = record { counted = h.counted; waits = h.waits }

  wake-IsBounded :
      (s : Engine R) (found : Option Restart) (loaded : Result (Loaded R)) (n : ℕ) (depth : ℕ → ℕ)
      (depths : List ℕ)
      → ((r : Restart) → found ≡ some r → (r.restart_count ≡ n) × (n ≤ 5))
      → IsBounded s depth depths
      → IsBounded (wake s found loaded) (woken_depth found n depth) depths
  unfolding wake woken_depth
  wake-IsBounded s none loaded n depth depths le h = h
  wake-IsBounded s (some r) loaded n depth depths le h =
      let (count, low) = le r refl in
      let d = r.device_id in
      let here = at_here d n depth in
      or_error-IsBounded d _ _ (at d n depth) depths (
        launch-IsBounded (record s { device_states = pop s.device_states d }) d r.restart_count
          loaded (at d n depth) depths (count ∙ sym here) (omega (arith, here, low))
          (record {
            counted =
                at-Counted (pop s.device_states d) depth d n (popped-none s.device_states d)
                  (pop-Counted s.device_states depth d h.counted);
            waits = h.waits;
          }))

  delayed_restart-IsBounded :
      (s : Engine R) (i : ℕ) (loaded : Result (Loaded R)) (depth : ℕ → ℕ) (depths : List ℕ)
      → IsBounded s depth depths
      → IsBounded
          (delayed_restart s i loaded)
          (woken_depth (restart_at i s.restarts) (nth i depths) depth)
          (drop_at i depths)
  unfolding delayed_restart
  delayed_restart-IsBounded s i loaded depth depths h =
      wake-IsBounded (record s { restarts = without i s.restarts }) (restart_at i s.restarts) loaded
        (nth i depths) depth (drop_at i depths)
        (λ r. restart_at-Waits i s.restarts depths r h.waits)
        (record { counted = h.counted; waits = without-Waits i s.restarts depths h.waits })

  stop_task-IsBounded :
      (s : Engine R) (d : ℕ) (crashed : Option Error) (depth : ℕ → ℕ) (depths : List ℕ)
      → IsBounded s depth depths
      → IsBounded (stop_task s d crashed).0 depth depths
  unfolding stop_task
  stop_task-IsBounded s d none depth depths h = record { counted = h.counted; waits = h.waits }
  stop_task-IsBounded s d (some e) depth depths h = h

  stop_with-IsBounded :
      (s : Engine R) (d : ℕ) (found : Option DeviceTaskState) (depth : ℕ → ℕ) (depths : List ℕ)
      → IsBounded s depth depths
      → IsBounded (stop_with s d found).0 depth depths
  unfolding stop_with
  stop_with-IsBounded s d none depth depths h = h
  stop_with-IsBounded s d (some state) depth depths h =
      stop_task-IsBounded (record s { device_states = pop s.device_states d }) d state.crashed depth
        depths (record { counted = pop-Counted s.device_states depth d h.counted; waits = h.waits })

  start_after-IsBounded :
      (d : ℕ) (loaded : Result (Loaded R)) (s : Engine R) (r : Result (Unit {0})) (depth : ℕ → ℕ)
      (depths : List ℕ)
      → IsBounded s depth depths
      → IsBounded (start_after d loaded (s, r)).0 (started_depth s d depth) depths
  unfolding start_after
  start_after-IsBounded d loaded s (ok _) depth depths h =
      start_device-IsBounded s d loaded depth depths h
  start_after-IsBounded d loaded s (err e) depth depths h =
      started_depth-IsBounded s d depth depths h

-- Every state of the engine, by any order of calls, of crashes and of callbacks, with the restarts
-- in a row behind each task, and those behind each restart that waits.
pub data Reaches {R : Type 0} : Engine R → (ℕ → ℕ) → List ℕ → Type 0 where
  initial :
      (injector : AnomalyInjector R)
      → Reaches
          (record {
            device_states = [];
            device_values = [];
            restarts = [];
            failed = [];
            injector = injector;
          })
          (λ d. 0)
          []
  started :
      {s : Engine R} {depth : ℕ → ℕ} {depths : List ℕ} (d : ℕ) (loaded : Result (Loaded R))
      → Reaches s depth depths
      → Reaches (start_device s d loaded).0 (started_depth s d depth) depths
  entered :
      {s : Engine R} {depth : ℕ → ℕ} {depths : List ℕ} (d : ℕ)
      → Reaches s depth depths
      → Reaches (enter_loop s d) depth depths
  crashes :
      {s : Engine R} {depth : ℕ → ℕ} {depths : List ℕ} (d : ℕ) (e : Error)
      → Reaches s depth depths
      → Reaches (crash s d e) depth depths
  done :
      {s : Engine R} {depth : ℕ → ℕ} {depths : List ℕ} (d : ℕ) (ending : Ending)
      → Reaches s depth depths
      → Reaches (on_task_done s d ending) depth (done_depths s d ending depth depths)
  woken :
      {s : Engine R} {depth : ℕ → ℕ} {depths : List ℕ} (i : ℕ) (loaded : Result (Loaded R))
      → Reaches s depth depths
      → Reaches
          (delayed_restart s i loaded)
          (woken_depth (restart_at i s.restarts) (nth i depths) depth)
          (drop_at i depths)
  stopped :
      {s : Engine R} {depth : ℕ → ℕ} {depths : List ℕ} (d : ℕ)
      → Reaches s depth depths
      → Reaches (stop_device s d).0 depth depths
  reloaded :
      {s : Engine R} {depth : ℕ → ℕ} {depths : List ℕ} (d : ℕ) (loaded : Result (Loaded R))
      → Reaches s depth depths
      → Reaches (reload_device s d loaded).0 (started_depth (stop_device s d).0 d depth) depths
  closed :
      {s : Engine R} {depth : ℕ → ℕ} {depths : List ℕ}
      → Reaches s depth depths
      → Reaches (shutdown s) depth depths

-- In every state the restarts in a row behind a task, counted by the calls since a start that found
-- no task, are its stored count and at most five; and each restart that waits is the n-th of its
-- row for some n from 1 to 5, after 2 to the power n seconds.
pub Reaches-IsBounded :
    {R : Type 0} (s : Engine R) (depth : ℕ → ℕ) (depths : List ℕ)
    → Reaches s depth depths
    → IsBounded s depth depths
unfolding enter_loop crash stop_device reload_device shutdown get Waits
Reaches-IsBounded _ _ _ (initial injector) = record { counted = λ d state e. cc; waits = tt }
Reaches-IsBounded _ _ _ (started d loaded r) =
    start_device-IsBounded _ d loaded _ _ (Reaches-IsBounded _ _ _ r)
Reaches-IsBounded _ _ _ (entered d r) =
    let h = Reaches-IsBounded _ _ _ r in record { counted = h.counted; waits = h.waits }
Reaches-IsBounded _ _ _ (crashes d e r) =
    crash_with-IsBounded _ d e _ _ _ refl (Reaches-IsBounded _ _ _ r)
Reaches-IsBounded _ _ _ (done d ending r) =
    on_task_done-IsBounded _ d ending _ _ (Reaches-IsBounded _ _ _ r)
Reaches-IsBounded _ _ _ (woken i loaded r) =
    delayed_restart-IsBounded _ i loaded _ _ (Reaches-IsBounded _ _ _ r)
Reaches-IsBounded _ _ _ (stopped d r) = stop_with-IsBounded _ d _ _ _ (Reaches-IsBounded _ _ _ r)
Reaches-IsBounded _ _ _ (reloaded d loaded r) =
    start_after-IsBounded d loaded _ _ _ _
      (stop_with-IsBounded _ d _ _ _ (Reaches-IsBounded _ _ _ r))
Reaches-IsBounded _ _ _ (closed r) =
    let h = Reaches-IsBounded _ _ _ r in record { counted = λ d state e. cc; waits = h.waits }
