-- ===== src/Contracts/GlobalScheduler/Decrease.antt =====
-- contractmanager/global_scheduler_service.go: which miner IDs `decrAllocation` returns.
use hash_router.Common.{◌≡◌, refl, String, false, some, List, [], ◌∷◌, arith, if◌then◌else◌, str_eq}
use hash_router.Common.Int.{ℤ, pos, ◌-ℤ◌, ltb_ℤ, ◌<ℤ◌, lt→ltb_ℤ, -ℤ_parts}
use hash_router.Common.Dict.{get, put, get-put}
use hash_router.Float.{Float64}
use hash_router.Miner.DestSplit.{remove_by_id}
use hash_router.Miner.Scheduler.{Scheduler}
use hash_router.Contracts.AllocSnap.{
  AllocItem, AllocCollection, AllocSnap, allocated_ghs, sort_by_allocated_ghs, snap_contract,
}
use hash_router.Contracts.GlobalScheduler.{GlobalScheduler}
use hash_router.Contracts.GlobalScheduler.Update.{
  DecrState, with_split, decr_split, decr_loop, decr_allocation,
}

module _ (f : Float64) (s : GlobalScheduler f) (contract_id : String) where
  loop-ends :
      (st : DecrState f) (l : List (AllocItem f))
      → ltb_ℤ (pos 0) st.remaining ≡ false
      → decr_loop f s contract_id st l ≡ st
  unfolding decr_loop
  loop-ends st [] h = refl
  loop-ends st (item ∷ rest) h = rw h

  not_below_self : (a : ℤ) → ltb_ℤ a a ≡ false
  not_below_self a = ground arith

  nothing-left : (a : ℤ) → ltb_ℤ (pos 0) (a -ℤ a) ≡ false
  nothing-left a = ground (arith, -ℤ_parts a a)

  abbrev taken_off : AllocItem f → Scheduler f → DecrState f
  taken_off item miner = record {
    miners =
        put s.miners item.miner_id
          (with_split f miner (remove_by_id f miner.dest_split contract_id).0);
    remaining = allocated_ghs f item -ℤ allocated_ghs f item;
    miner_ids = [];
  }

  abbrev start : AllocItem f → DecrState f
  start item = record { miners = s.miners; remaining = allocated_ghs f item; miner_ids = [] }

  split-whole :
      (item : AllocItem f) (miner : Scheduler f)
      → decr_split f s (start item) miner item contract_id ≡ taken_off item miner
  unfolding decr_split
  split-whole item miner = rw (not_below_self (allocated_ghs f item))

  loop-whole :
      (item : AllocItem f) (rest : List (AllocItem f)) (miner : Scheduler f)
      → get s.miners item.miner_id ≡ some miner
      → pos 0 <ℤ allocated_ghs f item
      → decr_loop f s contract_id (start item) (item ∷ rest) ≡ taken_off item miner
  unfolding decr_loop
  loop-whole item rest miner there positive =
      rw (lt→ltb_ℤ (pos 0) (allocated_ghs f item) positive, there, split-whole item miner)
        (loop-ends (taken_off item miner) rest (nothing-left (allocated_ghs f item)))

  -- Where the miner with the smallest share has exactly the hash rate to take away, it alone is
  -- taken off the contract, and the IDs returned are none at all: the miners that go on serving
  -- the contract are forgotten.
  decr_allocation-forgets :
      (snapshot : AllocSnap f) (c : AllocCollection f) (item : AllocItem f)
      (rest : List (AllocItem f)) (miner : Scheduler f)
      → snap_contract f snapshot contract_id ≡ some c
      → sort_by_allocated_ghs f c ≡ item ∷ rest
      → get s.miners item.miner_id ≡ some miner
      → pos 0 <ℤ allocated_ghs f item
      → let (s', kept) = decr_allocation f s snapshot (allocated_ghs f item) contract_id in
        (kept ≡ [])
        × ((j : String)
            → get s'.miners j ≡ (
                if str_eq item.miner_id j
                then some (with_split f miner (remove_by_id f miner.dest_split contract_id).0)
                else get s.miners j))
  unfolding decr_allocation
  decr_allocation-forgets snapshot c item rest miner found sorted there positive =
      rw (found, decr_allocation, sorted, loop-whole item rest miner there positive)
        (refl, λ j. get-put s.miners item.miner_id j _)
