-- ===== src/Contracts/GlobalScheduler/Update.antt =====
-- contractmanager/global_scheduler_service.go: `UpdateCombination`, which moves the hash rate of a
-- running contract towards its target.
pub mod Removal
pub use hash_router.Contracts.GlobalScheduler.Update.Removal.{DecrState, with_split}
unfoldable pub use hash_router.Contracts.GlobalScheduler.Update.Removal.{
  decr_split, decr_loop, decr_allocation,
}
use hash_router.Common.{
  ℕ, String, Bool, ◌&&◌, Option, none, some, List, [], ◌∷◌, ◌++◌, if◌then◌else◌, Result, ok, err,
}
use hash_router.Common.Int.{ℤ, pos, ◌+ℤ◌, ◌-ℤ◌, neg, ltb_ℤ, eq_ℤ}
use hash_router.Common.Dict.{Dict, get, put}
use hash_router.Float.{Float64}
use hash_router.Miner.DestSplit.{DestSplit, increase_allocation, remove_by_id, set_fraction_by_id}
use hash_router.Miner.Scheduler.{Scheduler}
use hash_router.Contracts.AllocSnap.{
  AllocItem, AllocCollection, AllocSnap, allocated_ghs, sort_by_allocated_ghs, ids, items,
  unallocated_item, get_int, snap_miner, snap_contract,
}
use hash_router.Contracts.GlobalScheduler.{
  GlobalScheduler, SchedulerError, min_int, get_miner_snapshot, allocate_contract,
}

-- The variables of the loop of `incAllocation`.
pub record IncState (f : Float64) : Type 0 where
  pub miners : Dict (Scheduler f)
  pub remaining_to_add : ℤ
  pub miner_ids : List String

module _ (f : Float64) where
  -- The end of a round of `incAllocation`, from the miner's item for this contract.
  unfoldable pub inc_split :
      GlobalScheduler f
      → IncState f
      → String
      → Scheduler f
      → AllocItem f
      → AllocItem f
      → ℤ
      → String
      → IncState f
  inc_split s st miner_id miner miner_snap allocation_item to_allocate contract_id =
      let fraction_to_add = f.div (f.of_int to_allocate) (f.of_int miner_snap.total_ghs) in
      let new_fraction = f.add allocation_item.fraction fraction_to_add in
      let limited =
        if f.lt s.pool_max_fraction new_fraction && f.lt new_fraction (f.const 1 1)
        then f.sub s.pool_max_fraction allocation_item.fraction
        else fraction_to_add in
      let split = (increase_allocation f miner.dest_split contract_id limited).0 in
      let added = f.to_int (f.mul limited (f.of_int miner_snap.total_ghs)) in
      if f.lt new_fraction s.pool_min_fraction then st else record st {
        miners = put st.miners miner_id (with_split f miner split);
        remaining_to_add = st.remaining_to_add -ℤ added;
      }

  -- A round of the loop of `incAllocation`; `none` is a panic on a nil pointer.
  unfoldable pub inc_step :
      GlobalScheduler f
      → AllocSnap f
      → String
      → IncState f
      → String
      → AllocItem f
      → Option (IncState f)
  unfolding inc_split
  inc_step s snapshot contract_id st miner_id miner_snap = elim (get st.miners miner_id) [
    | none ↦ some st
    | some miner ↦
        let st' : IncState f = record st { miner_ids = st.miner_ids ++ miner_id ∷ [] } in
        if ltb_ℤ (pos 0) st.remaining_to_add
        then elim (snap_miner f snapshot miner_id) [
          | none ↦ none
          | some miner_alloc ↦
              let free : AllocItem f = record (unallocated_item f miner_alloc) {
                total_ghs = get_int f snapshot.miner_hashrate_ghs miner_id;
              } in
              let to_allocate = min_int st.remaining_to_add (allocated_ghs f free) in
              if eq_ℤ to_allocate (pos 0) then some st' else elim (get miner_alloc contract_id) [
                | none ↦ none
                | some allocation_item ↦ some (
                    inc_split s st' miner_id miner miner_snap allocation_item to_allocate
                      contract_id)
              ]
        ]
        else some st'
  ]

  unfoldable pub inc_loop :
      GlobalScheduler f
      → AllocSnap f
      → String
      → IncState f
      → AllocCollection f
      → Option (IncState f)
  inc_loop s snapshot contract_id st [] = some st
  inc_loop s snapshot contract_id st ((miner_id, miner_snap) ∷ rest) =
      elim (inc_step s snapshot contract_id st miner_id miner_snap) [
        | none ↦ none
        | some st' ↦ inc_loop s snapshot contract_id st' rest
      ]

  unfoldable pub sum_allocated : ℤ → List (AllocItem f) → ℤ
  sum_allocated sum [] = sum
  sum_allocated sum (m ∷ rest) = sum_allocated (sum +ℤ allocated_ghs f m) rest

  unfoldable pub actual_hashrate : AllocSnap f → String → ℤ
  unfolding sum_allocated
  actual_hashrate snapshot contract_id = elim (snap_contract f snapshot contract_id) [
    | none ↦ pos 0
    | some miners ↦ sum_allocated (pos 0) (items f miners)
  ]

  -- The test that the deviation from the target is below a tenth.
  unfoldable pub is_close : ℤ → ℤ → Bool
  is_close delta_ghs target_ghs =
      f.lt (f.div (f.abs (f.of_int delta_ghs)) (f.of_int target_ghs)) (f.const 1 10)

  module _ (sort_strings : List String → List String) (shuffle : ℕ → List ℕ → List ℕ) where
    -- What `incAllocation` does after its loop.
    unfoldable pub inc_finish :
        ℕ
        → ℤ
        → GlobalScheduler f
        → String
        → String
        → IncState f
        → GlobalScheduler f × Result SchedulerError (List String)
    inc_finish k now s dest contract_id st =
        let s' : GlobalScheduler f = record s { miners = st.miners } in
        let (s'', r) =
          allocate_contract f sort_strings shuffle k now s' contract_id st.remaining_to_add dest in
        if eq_ℤ st.remaining_to_add (pos 0) then (s', ok st.miner_ids) else (
          s'',
          elim r [ ok combination ↦ ok (st.miner_ids ++ ids f combination) | err e ↦ err e ],
        )

    -- `incAllocation`
    unfoldable pub inc_allocation :
        ℕ
        → ℤ
        → GlobalScheduler f
        → AllocSnap f
        → ℤ
        → String
        → String
        → Option (GlobalScheduler f × Result SchedulerError (List String))
    unfolding inc_loop inc_finish
    inc_allocation k now s snapshot add_ghs dest contract_id =
        let start : IncState f = record {
          miners = s.miners;
          remaining_to_add = add_ghs;
          miner_ids = [];
        } in
        elim (snap_contract f snapshot contract_id) [
          | none ↦ some (inc_finish k now s dest contract_id start)
          | some miners_snap ↦ elim (inc_loop s snapshot contract_id start miners_snap) [
            | none ↦ none
            | some st ↦ some (inc_finish k now s dest contract_id st)
          ]
        ]

    -- `UpdateCombination`
    unfoldable pub update_combination :
        ℕ
        → ℤ
        → GlobalScheduler f
        → List String
        → ℤ
        → String
        → String
        → Option (GlobalScheduler f × Result SchedulerError (List String))
    unfolding inc_allocation decr_allocation
    update_combination k now s miner_ids target_ghs dest contract_id =
        let snapshot = get_miner_snapshot f now s in
        let delta_ghs = target_ghs -ℤ actual_hashrate snapshot contract_id in
        let increased = inc_allocation k now s snapshot delta_ghs dest contract_id in
        let (decreased, kept_ids) = decr_allocation f s snapshot (neg delta_ghs) contract_id in
        if is_close delta_ghs target_ghs
        then some (s, ok miner_ids)
        else if ltb_ℤ (pos 0) delta_ghs
        then increased
        else some (decreased, ok kept_ids)
