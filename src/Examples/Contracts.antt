-- ===== src/Examples/Contracts.antt =====
-- contractmanager/ on two miners: the scheduler, the contracts and the manager.
use hash_router.Common.{
  ℕ, ◌≡◌, refl, ◌≢◌, ◌⊎◌, String, true, false, none, some, List, [], ◌∷◌, str_eq, ok, err, arith,
  All, Bool-cases, inl, inr,
}
use hash_router.Blockchain.Retry.{wrap_int64}
use hash_router.Common.Int.{neg, ◌*ℤ◌, ℤ, pos, ◌<ℤ◌, ◌≤ℤ◌, ◌+ℤ◌}
use hash_router.Common.Dict.{Dict, get, put}
use hash_router.Float.Hundredths.{hundredths}
use hash_router.Miner.DestSplit.{Split, DestSplit, get_by_id, remove_by_id}
use hash_router.Miner.Scheduler.{Scheduler}
use hash_router.Contracts.AllocSnap.{
  AllocCollection, items, get_available_ghs, create_miner_snapshot,
}
use hash_router.Contracts.AllocSnap.Index.{IsConsistent, create_miner_snapshot-IsConsistent}
use hash_router.Contracts.GlobalScheduler.{
  GlobalScheduler, not_enough_hashrate, get_miner_snapshot, allocate_contract, deallocate_contract,
}
use hash_router.Contracts.GlobalScheduler.Refusal.{IsNotIn, allocate_contract-cases}
use hash_router.Contracts.GlobalScheduler.Stop.{
  IsServedOnce, serves, deallocate_contract-stops, deallocate_contract-panics,
}
use hash_router.Contracts.Contract.{
  ContractData, Contract, new_contract, bc_running, available, running, World, CloseoutCall, close,
  cipher_text_updated, purchase_info_updated, contract_is_expired, get_end_time, get_start_time,
  get_duration, ignore, fulfill_contract, after_fulfill,
}
use hash_router.Contracts.Contract.Lifecycle.{
  IsCloseout, close-stops, handle_events, last_read, handle_events-last_read,
  fulfill_contract-closes,
}
use hash_router.Contracts.Manager.{
  new_contract_manager, run_existing_contracts, run_manager_events, handle_contract, run_manager,
  zero_dest,
}
use hash_router.Contracts.Manager.Served.{IsEligible, run_manager-IsServedBy}

abbrev split : String → ℤ → Split hundredths
split id percentage = record { id = id; percentage = percentage; dest = "pool" }

abbrev miner_with : String → DestSplit hundredths → Scheduler hundredths
miner_with id d = record {
  id = id;
  dest_split = d;
  default_dest = "default";
  current_dest = "default";
  hashrate_ghs = pos 1000;
  connected_at = pos 0;
  last_dest_change_at = pos 0;
  miner_vetting_period = pos 10;
  dest_min_uptime = pos 30;
  dest_max_uptime = pos 70;
  restart_dest_cycle = false;
}

abbrev pub first_miner : Scheduler hundredths
first_miner = miner_with "m1" (split "c" (pos 30) ∷ split "d" (pos 40) ∷ [])

abbrev two_miners : Dict (Scheduler hundredths)
two_miners = ("m1", first_miner) ∷ ("m2", miner_with "m2" (split "c" (pos 50) ∷ [])) ∷ []

abbrev pub scheduler : GlobalScheduler hundredths
scheduler = record {
  miners = two_miners;
  pool_min_duration = pos 30;
  pool_max_duration = pos 70;
  pool_min_fraction = pos 30;
  pool_max_fraction = pos 70;
}

abbrev pub keep : ℕ → List ℕ → List ℕ
keep k l = l

abbrev pub as_given : List String → List String
as_given l = l

get-two_miners :
    (j : String) (m : Scheduler hundredths)
    → get two_miners j ≡ some m
    → (first_miner ≡ m) ⊎ (miner_with "m2" (split "c" (pos 50) ∷ []) ≡ m)
unfolding get
get-two_miners j m h = elim (Bool-cases (str_eq "m1" j)) [
  | inl first ↦ inl (ground arith)
  | inr other ↦ inr (ground arith)
]

two_miners-IsServedOnce : IsServedOnce hundredths two_miners "c"
unfolding get get_by_id remove_by_id
two_miners-IsServedOnce j m h = elim (get-two_miners j m h) [
  | inl e ↦ rw (← e) refl
  | inr e ↦ rw (← e) refl
]

deallocate_contract-stops_example :
    (miners' : Dict (Scheduler hundredths)) × (deallocate_contract hundredths two_miners
        ("m1" ∷ [])
        "c"
      ≡ some miners')
    × All (λ j. serves hundredths miners' j "c" ≡ none) ("m1" ∷ [])
    × ((j : String) → All (λ i. i ≢ j) ("m1" ∷ []) → get miners' j ≡ get two_miners j)
deallocate_contract-stops_example =
    deallocate_contract-stops hundredths two_miners ("m1" ∷ []) "c" two_miners-IsServedOnce

abbrev doubled_miners : Dict (Scheduler hundredths)
doubled_miners = ("m1", miner_with "m1" (split "c" (pos 30) ∷ split "c" (pos 40) ∷ [])) ∷ []

deallocate_contract-panics_example :
    deallocate_contract hundredths doubled_miners ("m1" ∷ []) "c" ≡ none
unfolding get get_by_id
deallocate_contract-panics_example =
    deallocate_contract-panics hundredths doubled_miners "m1" "c" []
      (miner_with "m1" (split "c" (pos 30) ∷ split "c" (pos 40) ∷ [])) (split "c" (pos 30) ∷ [])
      (split "c" (pos 40)) refl refl refl (ground arith)

create_miner_snapshot-IsConsistent_example :
    IsConsistent hundredths (create_miner_snapshot hundredths (pos 50) (first_miner ∷ []))
create_miner_snapshot-IsConsistent_example =
    create_miner_snapshot-IsConsistent hundredths (pos 50) (first_miner ∷ [])

allocate_contract-cases_example :
    let free =
      (get_available_ghs hundredths (get_miner_snapshot hundredths (pos 50) scheduler)).0 in
    let (s', r) =
      allocate_contract hundredths as_given keep 0 (pos 50) scheduler "e" (pos 500) "pool" in
    ((free <ℤ pos 500) × (r ≡ err not_enough_hashrate) × (s' ≡ scheduler))
    ⊎ ((pos 500 ≤ℤ free)
        × (c : AllocCollection hundredths) × (r ≡ ok c)
        × ((j : String)
            → IsNotIn hundredths j (items hundredths c)
            → get s'.miners j ≡ get scheduler.miners j))
allocate_contract-cases_example =
    allocate_contract-cases hundredths as_given keep 0 (pos 50) scheduler "e" "pool" (pos 500)

abbrev info : ContractData
info = record {
  addr = "c";
  buyer = "buyer";
  seller = "seller";
  bc_state = bc_running;
  price = pos 1;
  limit = pos 0;
  speed = pos 300000000000;
  contract_length = pos 3600;
  starting_block_timestamp = pos 0;
  dest = "pool";
}

abbrev served : World hundredths
served = record {
  contract = record { info = info; is_buyer = false; state = running; miner_ids = "m1" ∷ [] };
  scheduler = scheduler;
}

close-stops_example :
    (w' : World hundredths) × (call : CloseoutCall) × (close hundredths served ≡ some (w', call))
    × (w'.contract ≡ record served.contract { state = available })
    × All (λ j. serves hundredths w'.scheduler.miners j "c" ≡ none) ("m1" ∷ [])
    × ((j : String) → All (λ i. i ≢ j) ("m1" ∷ []) → get w'.scheduler.miners j ≡ get two_miners j)
    × IsCloseout served.contract call
close-stops_example = close-stops hundredths served refl two_miners-IsServedOnce

handle_events-last_read_example :
    handle_events hundredths served
      ((cipher_text_updated, some info) ∷ (purchase_info_updated, none) ∷ [])
    ≡ some (record served {
      contract = record served.contract {
        info =
            last_read hundredths info
              ((cipher_text_updated, some info) ∷ (purchase_info_updated, none) ∷ []);
      };
    })
handle_events-last_read_example =
    handle_events-last_read hundredths served
      ((cipher_text_updated, some info) ∷ (purchase_info_updated, none) ∷ [])
      (ground arith, (ground arith, tt))

abbrev unserved : World hundredths
unserved = record { contract = new_contract info false; scheduler = scheduler }

abbrev bought : Contract
bought = record {
  info = record info { dest = zero_dest };
  is_buyer = true;
  state = available;
  miner_ids = [];
}

run_manager-IsServedBy_example :
    (bought.info.addr ≡ "c") × (bought.is_buyer ≡ true) × IsEligible true "buyer" zero_dest bought
unfolding run_manager run_existing_contracts run_manager_events handle_contract new_contract_manager
    ignore new_contract get put
run_manager-IsServedBy_example =
    run_manager-IsServedBy "buyer" "default" true (λ a. some info) ("c" ∷ []) [] "c" bought refl

fulfill_contract-closes_example :
    (call : CloseoutCall) × (elim (fulfill_contract hundredths as_given keep 0
        (pos 7200000000000)
        unserved) [ none ↦ none | some r ↦ after_fulfill hundredths r ]
      ≡ some (
        record unserved { contract = record unserved.contract { state = available } },
        some call,
      ))
    × IsCloseout unserved.contract call
unfolding new_contract contract_is_expired get_end_time get_start_time get_duration wrap_int64 ◌+ℤ◌
    ◌*ℤ◌ neg
fulfill_contract-closes_example =
    fulfill_contract-closes hundredths as_given keep 0 (pos 7200000000000) unserved (inl refl) refl

-- In an int64 of nanoseconds the length of this contract is negative: it has ended before its start.
long_contract :
    contract_is_expired
      (pos 0)
      (new_contract (record info { contract_length = pos 10000000000 }) false)
    ≡ true
unfolding new_contract contract_is_expired get_end_time get_start_time get_duration wrap_int64 ◌+ℤ◌
    ◌*ℤ◌ neg
long_contract = refl
