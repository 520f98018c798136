-- ===== src/Contracts/GlobalScheduler/Update/Removal.antt =====
-- contractmanager/global_scheduler_service.go: `decrAllocation`, which takes hash rate off a running
-- contract.
use hash_router.Common.{String, none, some, List, [], ◌∷◌, ◌++◌, if◌then◌else◌}
use hash_router.Common.Int.{ℤ, pos, ◌-ℤ◌, ltb_ℤ}
use hash_router.Common.Dict.{Dict, get, put}
use hash_router.Float.{Float64}
use hash_router.Miner.DestSplit.{DestSplit, remove_by_id, set_fraction_by_id}
use hash_router.Miner.Scheduler.{Scheduler}
use hash_router.Contracts.AllocSnap.{
  AllocItem, AllocSnap, allocated_ghs, sort_by_allocated_ghs, snap_contract,
}
use hash_router.Contracts.GlobalScheduler.{GlobalScheduler}

-- The variables of the loop of `decrAllocation`.
pub record DecrState (f : Float64) : Type 0 where
  pub miners : Dict (Scheduler f)
  pub remaining : ℤ
  pub miner_ids : List String

module _ (f : Float64) where
  abbrev pub with_split : Scheduler f → DestSplit f → Scheduler f
  with_split m d = record m { dest_split = d }

  -- A miner of the sorted items that is still there, in a round of `decrAllocation`.
  unfoldable pub decr_split :
      GlobalScheduler f → DecrState f → Scheduler f → AllocItem f → String → DecrState f
  decr_split s st miner item contract_id =
      let removed = (remove_by_id f miner.dest_split contract_id).0 in
      let remove_fraction = f.div (f.of_int st.remaining) (f.of_int item.total_ghs) in
      let new_fraction = f.sub item.fraction remove_fraction in
      let too_small = f.lt new_fraction s.pool_min_fraction in
      let too_large = f.lt s.pool_max_fraction new_fraction in
      let set_fraction = if too_large then f.const 1 2 else new_fraction in
      let removed_ghs =
        if too_large
        then f.to_int (f.mul (f.of_int item.total_ghs) (f.const 1 2))
        else if too_small
        then allocated_ghs f item
        else st.remaining in
      let base = if too_small then removed else miner.dest_split in
      let split = (set_fraction_by_id f base contract_id set_fraction).0 in
      if ltb_ℤ st.remaining (allocated_ghs f item)
      then record {
        miners = put st.miners item.miner_id (with_split miner split);
        remaining = st.remaining -ℤ removed_ghs;
        miner_ids = st.miner_ids ++ item.miner_id ∷ [];
      }
      else record st {
        miners = put st.miners item.miner_id (with_split miner removed);
        remaining = st.remaining -ℤ allocated_ghs f item;
      }

  unfoldable pub decr_loop :
      GlobalScheduler f → String → DecrState f → List (AllocItem f) → DecrState f
  decr_loop s contract_id st [] = st
  decr_loop s contract_id st (item ∷ rest) =
      let next : DecrState f = elim (get st.miners item.miner_id) [
        | none ↦ st
        | some miner ↦ decr_split s st miner item contract_id
      ] in
      let after = decr_loop s contract_id next rest in
      if ltb_ℤ (pos 0) st.remaining then after else st

  -- `decrAllocation`: the miners after the call, and the returned IDs.
  unfoldable pub decr_allocation :
      GlobalScheduler f → AllocSnap f → ℤ → String → GlobalScheduler f × List String
  unfolding decr_loop
  decr_allocation s snapshot remove_ghs contract_id = elim (snap_contract f snapshot contract_id) [
    | none ↦ (s, [])
    | some alloc_snap ↦
        let start : DecrState f = record {
          miners = s.miners;
          remaining = remove_ghs;
          miner_ids = [];
        } in
        let st = decr_loop s contract_id start (sort_by_allocated_ghs f alloc_snap) in
        (record s { miners = st.miners }, st.miner_ids)
  ]
