-- ===== src/Examples/Miner.antt =====
-- miner/dest_split.go and miner/on_demand_miner_scheduler.go on one miner.
use hash_router.Common.{
  ◌≡◌, refl, String, Bool, List, true, false, some, [], ◌∷◌, str_eq, if◌then◌else◌, ok, err,
}
use hash_router.Common.Int.{ℤ, pos, ◌-ℤ◌, ◌+ℤ◌}
use hash_router.Float.Hundredths.{hundredths, hundredths-IsOrdered}
use hash_router.Miner.DestSplit.{
  Split, exceeds_one, DestSplit, sum_percentages, get_allocated, get_unallocated, adjust_percentage,
  allocate_exact, allocate, get_by_id, remove_by_id,
}
use hash_router.Miner.DestSplit.Lookup.{allocate_lem}
use hash_router.Miner.Scheduler.{Scheduler, done, deallocate, deallocate_loop, delete_cell}
use hash_router.Miner.Scheduler.Once.{deallocate-eq-remove_by_id}
use hash_router.Miner.Scheduler.Cycle.{
  Event, restart, timer, restart_requested, dest_changed, begin_cycle, run_step, run_events,
  IsConnected, run-IsConnected,
}

abbrev split : String → ℤ → Split hundredths
split id percentage = record { id = id; percentage = percentage; dest = "pool" }

abbrev miner_with : DestSplit hundredths → Scheduler hundredths
miner_with d = record {
  id = "miner";
  dest_split = d;
  default_dest = "default";
  current_dest = "default";
  hashrate_ghs = pos 1000;
  connected_at = pos 0;
  last_dest_change_at = pos 0;
  miner_vetting_period = pos 10;
  dest_min_uptime = pos 30;
  dest_max_uptime = pos 70;
  restart_dest_cycle = false;
}

abbrev two_splits : DestSplit hundredths
two_splits = split "b" (pos 30) ∷ split "a" (pos 40) ∷ []

abbrev doubled_splits : DestSplit hundredths
doubled_splits = split "a" (pos 30) ∷ split "a" (pos 40) ∷ []

-- An allocation takes the default destination's share, and is adjusted.
allocate_run :
    allocate hundredths two_splits "c" (pos 2) "pool"
    ≡ ok (split "c" (pos 5), split "c" (pos 5) ∷ two_splits)
unfolding allocate allocate_exact adjust_percentage get_unallocated get_allocated sum_percentages
    ◌-ℤ◌ ◌+ℤ◌
allocate_run = refl

allocate_refused : allocate hundredths two_splits "c" (pos 31) "pool" ≡ err exceeds_one
unfolding allocate allocate_exact adjust_percentage get_unallocated get_allocated sum_percentages
    ◌-ℤ◌ ◌+ℤ◌
allocate_refused = refl

deallocate_run :
    (deallocate hundredths (miner_with two_splits) "a").0.dest_split ≡ split "b" (pos 30) ∷ []
unfolding deallocate deallocate_loop delete_cell
deallocate_run = refl

deallocate-eq-remove_by_id_example : deallocate hundredths (miner_with two_splits) "a" ≡ (
  miner_with (remove_by_id hundredths two_splits "a").0,
  done (remove_by_id hundredths two_splits "a").1,
)
unfolding remove_by_id get_by_id
deallocate-eq-remove_by_id_example =
    deallocate-eq-remove_by_id hundredths (miner_with two_splits) "a" refl

allocate_lem_example :
    let s : Split hundredths = record {
      id = "c";
      percentage = adjust_percentage hundredths (pos 20);
      dest = "pool";
    } in
    (allocate hundredths two_splits "c" (pos 20) "pool" ≡ (
      if hundredths.lt
        (get_unallocated hundredths two_splits)
        (adjust_percentage hundredths (pos 20))
      then err exceeds_one
      else ok (s, s ∷ two_splits)))
    × ((j : String)
        → get_by_id hundredths (s ∷ two_splits) j
          ≡ (if str_eq "c" j then some s else get_by_id hundredths two_splits j))
allocate_lem_example = allocate_lem hundredths hundredths-IsOrdered two_splits "c" (pos 20) "pool"

run-IsConnected_example :
    let connects : String → Bool = λ d. true in
    let start = begin_cycle hundredths connects (pos 0) (miner_with two_splits) in
    let forced = run_events hundredths connects start ((pos 1, dest_changed "elsewhere") ∷ []) in
    let later : List (ℤ × Event hundredths) = (pos 2, restart_requested) ∷ (pos 3, restart) ∷ [] in
    IsConnected hundredths connects (run_events hundredths connects start later)
    × IsConnected hundredths connects
        (run_events hundredths connects (run_step hundredths connects (pos 1) forced timer) later)
run-IsConnected_example =
    run-IsConnected hundredths (λ d. true) (pos 0) (pos 1) (miner_with two_splits)
      ((pos 1, dest_changed "elsewhere") ∷ []) ((pos 2, restart_requested) ∷ (pos 3, restart) ∷ [])
      (refl, (refl, tt))
