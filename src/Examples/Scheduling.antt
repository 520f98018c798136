-- ===== src/Examples/Scheduling.antt =====
-- contractmanager/ on two miners: adjusting the combination of a running contract, and the hash rate
-- that is left.
use hash_router.Common.{◌≡◌, refl, [], ◌∷◌}
use hash_router.Common.Int.{◌-ℤ◌, pos, ◌+ℤ◌, ◌*ℤ◌, ◌/ℤ◌}
use hash_router.Common.Dict.{Dict}
use hash_router.Float.Hundredths.{hundredths}
use hash_router.Miner.Scheduler.{Scheduler}
use hash_router.Contracts.AllocSnap.{AllocItem, AllocCollection, AllocSnap}
use hash_router.Contracts.GlobalScheduler.{GlobalScheduler}
use hash_router.Contracts.GlobalScheduler.Unallocated.{
  IsPositive, get_unallocated_hashrates, get_unallocated_hashrates_total, unallocated_each,
  total_hashrate_ghs, total_loop,
}
use hash_router.Miner.Scheduler.{get_unallocated_hashrate_ghs}
use hash_router.Miner.DestSplit.{get_unallocated, get_allocated, sum_percentages}
use hash_router.Examples.Contracts.{first_miner}

abbrev first_item : AllocItem hundredths
first_item = record { miner_id = "m1"; contract_id = "c"; fraction = pos 30; total_ghs = pos 1000 }

abbrev second_item : AllocItem hundredths
second_item = record { miner_id = "m2"; contract_id = "c"; fraction = pos 50; total_ghs = pos 1000 }

abbrev contract_items : AllocCollection hundredths
contract_items = ("m2", second_item) ∷ ("m1", first_item) ∷ []

abbrev snapshot : AllocSnap hundredths
snapshot = record {
  contract_miners = ("c", contract_items) ∷ [];
  miner_contracts = ("m1", ("c", first_item) ∷ []) ∷ ("m2", ("c", second_item) ∷ []) ∷ [];
  miner_hashrate_ghs = ("m1", pos 1000) ∷ ("m2", pos 1000) ∷ [];
}

abbrev served_items : AllocCollection hundredths
served_items = ("m1", first_item) ∷ ("m2", second_item) ∷ []

-- The first miner at half its hash rate.
abbrev slower : Scheduler hundredths
slower = record first_miner { hashrate_ghs = pos 500 }

-- A miner that slows down between the readings makes the sum and the list differ.
slowing_miner :
    let (sum, m) = get_unallocated_hashrates hundredths ((first_miner, slower) ∷ []) in
    (sum ≡ pos 300) × (total_hashrate_ghs m ≡ pos 150)
unfolding get_unallocated_hashrates unallocated_each total_hashrate_ghs total_loop
    get_unallocated_hashrate_ghs get_unallocated get_allocated sum_percentages ◌*ℤ◌ ◌/ℤ◌ ◌+ℤ◌ ◌-ℤ◌
slowing_miner = (refl, refl)

get_unallocated_hashrates_total_example :
    let (sum, m) = get_unallocated_hashrates hundredths ((first_miner, first_miner) ∷ []) in
    (sum ≡ total_hashrate_ghs m) × IsPositive hundredths m
get_unallocated_hashrates_total_example =
    get_unallocated_hashrates_total hundredths ((first_miner, first_miner) ∷ []) (refl, tt)
