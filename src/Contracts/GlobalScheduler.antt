-- ===== src/Contracts/GlobalScheduler.antt =====
-- contractmanager/global_scheduler_service.go: the hash rate of all miners over the contracts. The
-- service's methods run one at a time; the miners are the entries of the collection, whose other
-- methods only read them.
pub mod Update
pub mod Decrease
pub mod Increase
pub mod Refusal
pub mod Stop
pub mod Unallocated
use hash_router.Common.{
  ℕ, suc, ◌+◌, String, Bool, true, false, not, ◌&&◌, ◌||◌, Option, none, some, List, [], ◌∷◌, ◌++◌,
  map, str_eq, if◌then◌else◌, Result, ok, err,
}
use hash_router.Common.Int.{ℤ, pos, ◌+ℤ◌, ◌-ℤ◌, neg, ltb_ℤ, eq_ℤ}
use hash_router.Common.Dict.{Dict, get, put}
use hash_router.Float.{Float64}
use hash_router.Miner.DestSplit.{DestSplit, increase_allocation, remove_by_id, set_fraction_by_id}
use hash_router.Miner.Scheduler.{
  Scheduler, DeallocateReply, done, panic, allocate_miner, deallocate,
}
use hash_router.Contracts.AllocSnap.{
  AllocItem, AllocCollection, AllocSnap, allocated_ghs, reduce_miner_allocation,
  filter_fully_available, sort_by_allocated_ghs, ids, items, unallocated_item, get_int, snap_miner,
  snap_contract, get_available_ghs, create_miner_snapshot,
}
use hash_router.Contracts.Combinations.{find_combinations}

pub record GlobalScheduler (f : Float64) : Type 0 where
  pub miners : Dict (Scheduler f)
  pub pool_min_duration : ℤ
  pub pool_max_duration : ℤ
  pub pool_min_fraction : f.Number
  pub pool_max_fraction : f.Number

pub data SchedulerError : Type 0 where
  not_enough_hashrate : SchedulerError

-- lib.MinInt
unfoldable pub min_int : ℤ → ℤ → ℤ
min_int a b = if ltb_ℤ b a then b else a

module _ (f : Float64) where
  -- `setPoolDurationConstraints`
  unfoldable pub set_pool_duration_constraints : GlobalScheduler f → ℤ → ℤ → GlobalScheduler f
  set_pool_duration_constraints s min max = record s {
    pool_min_duration = min;
    pool_max_duration = max;
    pool_min_fraction = f.div (f.of_int min) (f.of_int (min +ℤ max));
    pool_max_fraction = f.div (f.of_int max) (f.of_int (min +ℤ max));
  }

  -- `NewGlobalScheduler`
  unfoldable pub new_global_scheduler : Dict (Scheduler f) → ℤ → ℤ → GlobalScheduler f
  new_global_scheduler miners min max =
      let fresh : GlobalScheduler f = record {
        miners = miners;
        pool_min_duration = pos 0;
        pool_max_duration = pos 0;
        pool_min_fraction = f.const 0 1;
        pool_max_fraction = f.const 0 1;
      } in
      set_pool_duration_constraints fresh min max

  -- `GetMinerSnapshot`
  unfoldable pub get_miner_snapshot : ℤ → GlobalScheduler f → AllocSnap f
  get_miner_snapshot now s = create_miner_snapshot f now (map (λ e. e.1) s.miners)

  -- The loop of `getBestMinerToReduceHashrate`, over the best miner so far.
  unfoldable pub best_miner_loop :
      GlobalScheduler f → ℤ → List (AllocItem f) → String → f.Number → String
  best_miner_loop s reduce_ghs [] best_id best_delta = best_id
  best_miner_loop s reduce_ghs (item ∷ rest) best_id best_delta =
      let fraction = f.div (f.of_int reduce_ghs) (f.of_int item.total_ghs) in
      let fraction_delta = f.abs (f.sub fraction (f.const 1 2)) in
      let is_better =
        f.eq item.fraction (f.const 1 1)
        && f.lt s.pool_min_fraction fraction
        && f.lt fraction s.pool_max_fraction
        && f.lt fraction_delta best_delta in
      best_miner_loop s reduce_ghs rest (if is_better then item.miner_id else best_id)
        (if is_better then fraction_delta else best_delta)

  -- `none`: no miner was found
  unfoldable pub get_best_miner_to_reduce_hashrate :
      GlobalScheduler f → AllocCollection f → ℤ → Option String
  unfolding best_miner_loop
  get_best_miner_to_reduce_hashrate s combination reduce_ghs =
      let best = best_miner_loop s reduce_ghs (items f combination) "" (f.const 1 1) in
      if str_eq best "" then none else some best

  -- What happens to one miner of a combination: a miner that is gone or refuses is skipped. Where
  -- `Allocate` blocks, the caller waits until the miner's loop has taken the pending request.
  unfoldable pub allocate_items :
      Dict (Scheduler f) → String → String → List (AllocItem f) → Dict (Scheduler f)
  allocate_items miners contract_id dest [] = miners
  allocate_items miners contract_id dest (item ∷ rest) =
      allocate_items
        (elim (get miners item.miner_id) [
          | none ↦ miners
          | some miner ↦
              put miners item.miner_id (allocate_miner f miner contract_id item.fraction dest).0
        ])
        contract_id dest rest

  module _ (sort_strings : List String → List String) (shuffle : ℕ → List ℕ → List ℕ) where
    -- `getAllocateComb`; `k` numbers the shuffles
    unfoldable pub get_allocate_comb :
        ℕ → GlobalScheduler f → AllocCollection f → ℤ → AllocCollection f × Bool
    get_allocate_comb k s miner_hashrates hashrate_ghs =
        let (combination, d) =
          find_combinations f sort_strings shuffle k miner_hashrates hashrate_ghs in
        if ltb_ℤ (pos 0) d
        then elim (get_best_miner_to_reduce_hashrate s combination d) [
          | none ↦ (combination, false)
          | some best ↦ (reduce_miner_allocation f combination best d, true)
        ]
        else (combination, true)

    -- The first combination if it is accurate, or else one of fully available miners, accurate or
    -- not.
    unfoldable pub choose_combination :
        ℕ → GlobalScheduler f → AllocCollection f → ℤ → AllocCollection f
    choose_combination k s miner_hashrates hashrate_ghs =
        let (combination, is_accurate) = get_allocate_comb k s miner_hashrates hashrate_ghs in
        if is_accurate
        then combination
        else (get_allocate_comb (100 + k) s (filter_fully_available f miner_hashrates)
            hashrate_ghs).0

    -- `Allocate`
    unfoldable pub allocate_contract :
        ℕ
        → ℤ
        → GlobalScheduler f
        → String
        → ℤ
        → String
        → GlobalScheduler f × Result SchedulerError (AllocCollection f)
    allocate_contract k now s contract_id hashrate_ghs dest =
        let (remaining, miner_hashrates) = get_available_ghs f (get_miner_snapshot now s) in
        let combination = choose_combination k s miner_hashrates hashrate_ghs in
        if ltb_ℤ remaining hashrate_ghs then (s, err not_enough_hashrate) else (
          record s { miners = allocate_items s.miners contract_id dest (items f combination) },
          ok combination,
        )

  -- `DeallocateContract`; `none` is a panic of a miner's `Deallocate`
  unfoldable pub deallocate_contract :
      Dict (Scheduler f) → List String → String → Option (Dict (Scheduler f))
  deallocate_contract miners [] contract_id = some miners
  deallocate_contract miners (miner_id ∷ rest) contract_id =
      let skipped = deallocate_contract miners rest contract_id in
      elim (get miners miner_id) [
        | none ↦ skipped
        | some miner ↦
            let (miner', reply) = deallocate f miner contract_id in
            let next = deallocate_contract (put miners miner_id miner') rest contract_id in
            elim reply [ done found ↦ next | panic ↦ none ]
      ]
