-- ===== src/Miner/Scheduler/Visits.antt =====
-- miner/on_demand_miner_scheduler.go, the loop of `Run`: a cycle comes to every split that it has
-- copied.
use hash_router.Common.{
  ◌≡◌, refl, String, Bool, true, List, [], ◌∷◌, ◌++◌, arith, str_eq, eq_refl, length, map, All,
  Bool-cases, inl, inr,
}
use hash_router.Common.Int.{ℤ}
use hash_router.Float.{Float64}
use hash_router.Miner.DestSplit.{Split, iter}
use hash_router.Miner.Scheduler.{Scheduler, get_dest}
use hash_router.Miner.Scheduler.Cycle.{
  timer, RunState, waiting, split_duration, visit, begin_cycle, run_step, run_events, next_split,
}

module _ (f : Float64) (connects : String → Bool) where
  -- The loop waits for the share of s, connected to its destination, with `rest` to come.
  abbrev pub IsOn : Split f → List (Split f) → RunState f → Type 0
  IsOn s rest st =
      (m : Scheduler f) × (st ≡ waiting m s (split_duration f connects m s) rest)
      × (str_eq m.current_dest s.dest ≡ true)

  visit-IsOn :
      (now : ℤ) (m : Scheduler f) (s : Split f) (rest : List (Split f))
      → connects s.dest ≡ true
      → IsOn s rest (visit f connects now m (s ∷ rest))
  unfolding visit
  visit-IsOn now m s rest h = elim (Bool-cases (str_eq m.current_dest s.dest)) [
    | inl same ↦ (m, rw same refl, same)
    | inr other ↦ (
      record m { current_dest = s.dest; last_dest_change_at = now },
      rw (other, h) refl,
      eq_refl s.dest,
    )
  ]

  -- The next split is one of a list that is not empty.
  next-append :
      (now : ℤ) (m : Scheduler f) (pre : List (Split f)) (s : Split f) (post : List (Split f))
      → next_split f connects now m (pre ++ s ∷ post) ≡ visit f connects now m (pre ++ s ∷ post)
  next-append now m [] s post = refl
  next-append now m (x ∷ pre) s post = refl

  run_events-IsOn :
      (now : ℤ) (m : Scheduler f) (pre : List (Split f)) (s : Split f) (post : List (Split f))
      (times : List ℤ)
      → length times ≡ length pre
      → All (λ x. connects x.dest ≡ true) (pre ++ s ∷ post)
      → IsOn s post (
          run_events f connects
            (visit f connects now m (pre ++ s ∷ post))
            (map (λ t. (t, timer)) times))
  unfolding run_events run_step
  run_events-IsOn now m [] s post [] e h = visit-IsOn now m s post h.0
  run_events-IsOn now m [] s post (t ∷ times) e h = ground arith
  run_events-IsOn now m (x ∷ pre) s post [] e h = ground arith
  run_events-IsOn now m (x ∷ pre) s post (t ∷ times) e h =
      let (m', there, same) = visit-IsOn now m x (pre ++ s ∷ post) h.0 in
      rw there (
        rw (run_events, run_step, next-append t m' pre s post)
          (run_events-IsOn t m' pre s post times (omega arith) h.1))

  -- With every destination of the cycle connecting, as many timer events as there are splits before a
  -- split bring the loop to it: it then waits, connected to its destination, for its share of the
  -- cycle, with the splits behind it to come.
  pub begin_cycle-IsOn :
      (now : ℤ) (m : Scheduler f) (pre : List (Split f)) (s : Split f) (post : List (Split f))
      (times : List ℤ)
      → iter f (get_dest f m) ≡ pre ++ s ∷ post
      → length times ≡ length pre
      → All (λ x. connects x.dest ≡ true) (pre ++ s ∷ post)
      → IsOn s post
          (run_events f connects (begin_cycle f connects now m) (map (λ t. (t, timer)) times))
  unfolding begin_cycle
  begin_cycle-IsOn now m pre s post times e n h = rw e (run_events-IsOn now m pre s post times n h)
