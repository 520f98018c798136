-- ===== src/Miner/Scheduler/Cycle.antt =====
-- miner/on_demand_miner_scheduler.go: the loop of `Run`, as a step function over what it waits
-- for. Between two steps other goroutines change the splits, which the cycle has copied.
use hash_router.Common.{
  All, ◌≡◌, String, Bool, true, false, List, [], ◌∷◌, arith, str_eq, eq_refl, if◌then◌else◌,
  Bool-cases, inl, inr,
}
use hash_router.Common.Int.{ℤ}
use hash_router.Float.{Float64}
use hash_router.Miner.DestSplit.{Split, DestSplit, iter}
use hash_router.Miner.Scheduler.{Scheduler, get_dest, get_cycle_duration}

pub data RunError : Type 0 where
  context_done model_failed change_failed : RunError

-- What the select statement receives, and what other goroutines do to the miner meanwhile. A timer
-- event is the end of time.After.
pub data Event (f : Float64) : Type 0 where
  done model_error restart timer : Event f
  splits_change : DestSplit f → Event f
  restart_requested : Event f
  -- `ChangeDest` of the scheduler, which the HTTP interface calls
  dest_changed : String → Event f

-- `waiting m s d rest`: the loop waits for the duration d on the split s, and has the splits rest
-- of this cycle before it. `spinning`: a cycle with no destination, which does not wait at all.
pub data RunState (f : Float64) : Type 0 where
  waiting : Scheduler f → Split f → ℤ → List (Split f) → RunState f
  spinning : Scheduler f → RunState f
  returned : Scheduler f → RunError → RunState f

-- `connects` is the answer of ChangeDest for a destination, `now` the clock.
module _ (f : Float64) (connects : String → Bool) where
  unfoldable pub split_duration : Scheduler f → Split f → ℤ
  split_duration m s = f.to_int (f.mul (f.of_int (get_cycle_duration f m)) s.percentage)

  -- The body of the inner loop up to its select.
  unfoldable pub visit : ℤ → Scheduler f → List (Split f) → RunState f
  visit now m [] = spinning m
  visit now m (s ∷ rest) =
      let moved : Scheduler f = record m { current_dest = s.dest; last_dest_change_at = now } in
      if str_eq m.current_dest s.dest
      then waiting m s (split_duration m s) rest
      else if connects s.dest
      then waiting moved s (split_duration moved s) rest
      else returned m change_failed

  -- The body of the outer loop.
  unfoldable pub begin_cycle : ℤ → Scheduler f → RunState f
  begin_cycle now m = visit now m (iter f (get_dest f m))

  abbrev pub next_split : ℤ → Scheduler f → List (Split f) → RunState f
  next_split now m [] = begin_cycle now m
  next_split now m (s ∷ rest) = visit now m (s ∷ rest)

  -- What other goroutines change.
  unfoldable pub meanwhile : Scheduler f → Event f → Scheduler f
  meanwhile m (splits_change split) = record m { dest_split = split }
  meanwhile m restart_requested = record m { restart_dest_cycle = true }
  meanwhile m (dest_changed dest) = if connects dest then record m { current_dest = dest } else m
  meanwhile m _ = m

  -- `restart` can be received only where the channel holds a value, which is taken out.
  unfoldable pub run_step : ℤ → RunState f → Event f → RunState f
  unfolding meanwhile
  run_step now (waiting m s d rest) done = returned m context_done
  run_step now (waiting m s d rest) model_error = returned m model_failed
  run_step now (waiting m s d rest) restart =
      if m.restart_dest_cycle
      then begin_cycle now (record m { restart_dest_cycle = false })
      else waiting m s d rest
  run_step now (waiting m s d rest) timer = next_split now m rest
  run_step now (waiting m s d rest) (splits_change split) =
      waiting (meanwhile m (splits_change split)) s d rest
  run_step now (waiting m s d rest) restart_requested =
      waiting (meanwhile m restart_requested) s d rest
  run_step now (waiting m s d rest) (dest_changed dest) =
      waiting (meanwhile m (dest_changed dest)) s d rest
  run_step now (spinning m) e = begin_cycle now (meanwhile m e)
  run_step now (returned m e) ev = returned m e

  unfoldable pub run_events : RunState f → List (ℤ × Event f) → RunState f
  run_events st [] = st
  run_events st ((now, e) ∷ es) = run_events (run_step now st e) es

  -- While the loop waits on a split, the miner is connected to the destination of that split.
  abbrev pub IsConnected : RunState f → Type 0
  IsConnected (waiting m s d rest) = str_eq m.current_dest s.dest ≡ true
  IsConnected (spinning m) = Unit
  IsConnected (returned m e) = Unit

  abbrev pub is_forced : ℤ × Event f → Bool
  is_forced (now, dest_changed dest) = true
  is_forced (now, _) = false

  visit-IsConnected : (now : ℤ) (m : Scheduler f) (l : List (Split f)) → IsConnected (visit now m l)
  unfolding visit
  visit-IsConnected now m [] = tt
  visit-IsConnected now m (s ∷ rest) = ground (arith, eq_refl s.dest)

  run_step-IsConnected :
      (now : ℤ) (st : RunState f) (e : Event f)
      → is_forced (now, e) ≡ false
      → IsConnected st
      → IsConnected (run_step now st e)
  unfolding run_step begin_cycle
  run_step-IsConnected now (waiting m s d rest) done o h = tt
  run_step-IsConnected now (waiting m s d rest) model_error o h = tt
  run_step-IsConnected now (waiting m s d rest) restart o h =
      elim (Bool-cases m.restart_dest_cycle) [
        | inl full ↦
            rw full (visit-IsConnected now _ (get_dest f (record m { restart_dest_cycle = false })))
        | inr empty ↦ rw empty h
      ]
  run_step-IsConnected now (waiting m s d []) timer o h = visit-IsConnected now m (get_dest f m)
  run_step-IsConnected now (waiting m s d (r ∷ rest)) timer o h = visit-IsConnected now m (r ∷ rest)
  run_step-IsConnected now (waiting m s d rest) (splits_change split) o h = h
  run_step-IsConnected now (waiting m s d rest) restart_requested o h = h
  run_step-IsConnected now (waiting m s d rest) (dest_changed dest) o h = ground arith
  run_step-IsConnected now (spinning m) e o h =
      visit-IsConnected now (meanwhile m e) (get_dest f (meanwhile m e))
  run_step-IsConnected now (returned m e) ev o h = tt

  run_events-IsConnected :
      (st : RunState f) (es : List (ℤ × Event f))
      → All (λ e. is_forced e ≡ false) es
      → IsConnected st
      → IsConnected (run_events st es)
  unfolding run_events
  run_events-IsConnected st [] o h = h
  run_events-IsConnected st ((now, e) ∷ es) o h =
      run_events-IsConnected (run_step now st e) es o.1 (run_step-IsConnected now st e o.0 h)

  -- The end of a split's time sets right what a change of the destination has done.
  timer-IsConnected : (now : ℤ) (st : RunState f) → IsConnected (run_step now st timer)
  unfolding run_step begin_cycle
  timer-IsConnected now (waiting m s d []) = visit-IsConnected now m (get_dest f m)
  timer-IsConnected now (waiting m s d (r ∷ rest)) = visit-IsConnected now m (r ∷ rest)
  timer-IsConnected now (spinning m) = visit-IsConnected now m (get_dest f m)
  timer-IsConnected now (returned m e) = tt

  -- From the start of `Run`, whichever destinations refuse, the miner is connected to the destination
  -- of the split whose time is running as long as no other goroutine changes the destination. After
  -- any events, such changes included, it is so again from the next end of a split's time, until
  -- another change.
  pub run-IsConnected :
      (now end_of_split : ℤ) (m : Scheduler f) (before es : List (ℤ × Event f))
      → All (λ e. is_forced e ≡ false) es
      → IsConnected (run_events (begin_cycle now m) es)
        × IsConnected
            (run_events (run_step end_of_split (run_events (begin_cycle now m) before) timer) es)
  unfolding begin_cycle
  run-IsConnected now end_of_split m before es own = (
    run_events-IsConnected (visit now m (get_dest f m)) es own
        (visit-IsConnected now m (get_dest f m)),
    run_events-IsConnected _ es own
        (timer-IsConnected end_of_split (run_events (begin_cycle now m) before)),
  )
