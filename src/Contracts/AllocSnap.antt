-- ===== src/Contracts/AllocSnap.antt =====
-- contractmanager/alloc_snap.go: a snapshot of which part of which miner serves which contract.
-- A collection holds pointers to its items, but no item of a snapshot is written to after it was
-- stored, and `ReduceMinerAllocation` is called on items that no snapshot holds: items are values.
pub mod Index
use hash_router.Common.{
  ◌≡◌, String, Bool, true, false, not, Option, none, some, List, [], ◌∷◌, map, if◌then◌else◌,
  Result, ok, err,
}
use hash_router.Common.Int.{ℤ, pos, ◌+ℤ◌, ltb_ℤ}
use hash_router.Common.Dict.{Dict, get, put, get_or_empty, get_nested}
use hash_router.Float.{Float64}
use hash_router.Miner.DestSplit.{Split}
use hash_router.Miner.Scheduler.{Scheduler, is_vetted}

pub record AllocItem (f : Float64) : Type 0 where
  pub miner_id : String
  pub contract_id : String
  pub fraction : f.Number
  pub total_ghs : ℤ

module _ (f : Float64) where
  unfoldable pub allocated_ghs : AllocItem f → ℤ
  allocated_ghs m = f.to_int (f.mul (f.of_int m.total_ghs) m.fraction)

  abbrev pub AllocCollection : Type 0
  AllocCollection = Dict (AllocItem f)

  abbrev pub new_alloc_collection : AllocCollection
  new_alloc_collection = []

  -- `Add`
  abbrev pub add_item : AllocCollection → String → AllocItem f → AllocCollection
  add_item m id item = put m id item

  abbrev pub reduced : ℤ → AllocItem f → AllocItem f
  reduced delta item = record item {
    fraction = f.sub item.fraction (f.div (f.of_int delta) (f.of_int item.total_ghs));
  }

  unfoldable pub reduce_miner_allocation : AllocCollection → String → ℤ → AllocCollection
  reduce_miner_allocation m miner_id delta = elim (get m miner_id) [
    | none ↦ m
    | some item ↦ put m miner_id (reduced delta item)
  ]

  unfoldable pub filter_fully_available : AllocCollection → AllocCollection
  filter_fully_available [] = []
  filter_fully_available ((key, item) ∷ m) =
      let rest = filter_fully_available m in
      if f.eq item.fraction (f.const 1 1) then (key, item) ∷ rest else rest

  -- The stable sort: an item goes behind those that are not above it.
  unfoldable pub insert_by_ghs : AllocItem f → List (AllocItem f) → List (AllocItem f)
  insert_by_ghs a [] = a ∷ []
  insert_by_ghs a (b ∷ l) =
      if ltb_ℤ (allocated_ghs b) (allocated_ghs a) then b ∷ insert_by_ghs a l else a ∷ b ∷ l

  unfoldable pub sort_items : List (AllocItem f) → List (AllocItem f)
  sort_items [] = []
  sort_items (a ∷ l) = insert_by_ghs a (sort_items l)

  -- The values of a map, in the order of its range.
  abbrev pub items : AllocCollection → List (AllocItem f)
  items m = map (λ e. e.1) m

  unfoldable pub sort_by_allocated_ghs : AllocCollection → List (AllocItem f)
  unfolding sort_items insert_by_ghs
  sort_by_allocated_ghs m = sort_items (items m)

  -- `IDs`
  unfoldable pub ids : AllocCollection → List String
  ids m = map (λ e. e.1.miner_id) m

  -- The loop of `GetUnallocatedGHS` of a collection, over what it has found so far.
  unfoldable pub unallocated_loop : AllocCollection → f.Number → String → ℤ → f.Number × String × ℤ
  unallocated_loop [] allocated_frac miner_id total_ghs = (allocated_frac, miner_id, total_ghs)
  unallocated_loop ((_, item) ∷ m) allocated_frac miner_id total_ghs =
      unallocated_loop m (f.add allocated_frac item.fraction) item.miner_id item.total_ghs

  unfoldable pub unallocated_item : AllocCollection → AllocItem f
  unfolding unallocated_loop
  unallocated_item m =
      let (allocated_frac, miner_id, total_ghs) = unallocated_loop m (f.const 0 1) "" (pos 0) in
      record {
        miner_id = miner_id;
        contract_id = "";
        fraction = f.sub (f.const 1 1) allocated_frac;
        total_ghs = total_ghs;
      }

  -- `GetUnallocatedGHS` of a collection
  unfoldable pub get_unallocated_ghs : AllocCollection → ℤ × AllocItem f
  get_unallocated_ghs m = (allocated_ghs (unallocated_item m), unallocated_item m)

  pub record AllocSnap : Type 0 where
    pub contract_miners : Dict AllocCollection
    pub miner_contracts : Dict AllocCollection
    pub miner_hashrate_ghs : Dict ℤ

  abbrev pub new_alloc_snap : AllocSnap
  new_alloc_snap = record { contract_miners = []; miner_contracts = []; miner_hashrate_ghs = [] }

  unfoldable pub set_miner : AllocSnap → String → ℤ → AllocSnap
  set_miner s miner_id hashrate_ghs = record s {
    miner_contracts = put s.miner_contracts miner_id (get_or_empty s.miner_contracts miner_id);
    miner_hashrate_ghs = put s.miner_hashrate_ghs miner_id hashrate_ghs;
  }

  -- `Set`
  unfoldable pub set_item : AllocSnap → String → String → f.Number → ℤ → AllocSnap
  unfolding set_miner
  set_item m miner_id contract_id fraction total_ghs =
      let s : AllocSnap = set_miner m miner_id total_ghs in
      let item : AllocItem f = record {
        miner_id = miner_id;
        contract_id = contract_id;
        fraction = fraction;
        total_ghs = total_ghs;
      } in
      record s {
        contract_miners =
            put s.contract_miners contract_id
              (add_item (get_or_empty s.contract_miners contract_id) miner_id item);
        miner_contracts =
            put s.miner_contracts miner_id
              (add_item (get_or_empty s.miner_contracts miner_id) contract_id item);
      }

  -- `Get`
  unfoldable pub get_item : AllocSnap → String → String → Option (AllocItem f)
  get_item m miner_id contract_id = get_nested m.miner_contracts miner_id contract_id

  -- `Miner` and `Contract`
  unfoldable pub snap_miner : AllocSnap → String → Option AllocCollection
  snap_miner m miner_id = get m.miner_contracts miner_id

  unfoldable pub snap_contract : AllocSnap → String → Option AllocCollection
  snap_contract m contract_id = get m.contract_miners contract_id

  abbrev pub get_int : Dict ℤ → String → ℤ
  get_int m k = elim (get m k) [ none ↦ pos 0 | some i ↦ i ]

  abbrev pub available_item : AllocSnap → String → AllocCollection → AllocItem f
  available_item s miner_id miner = record {
    miner_id = miner_id;
    contract_id = "";
    fraction = (unallocated_item miner).fraction;
    total_ghs = get_int s.miner_hashrate_ghs miner_id;
  }

  -- The loop of `GetUnallocatedGHS` of a snapshot.
  unfoldable pub available_loop :
      AllocSnap → Dict AllocCollection → ℤ → AllocCollection → ℤ × AllocCollection
  available_loop s [] total available = (total, available)
  available_loop s ((miner_id, miner) ∷ rest) total available =
      let item = available_item s miner_id miner in
      let is_free = f.lt (f.const 0 1) (unallocated_item miner).fraction in
      available_loop s rest (if is_free then total +ℤ allocated_ghs item else total)
        (if is_free then add_item available miner_id item else available)

  -- `GetUnallocatedGHS` of a snapshot
  unfoldable pub get_available_ghs : AllocSnap → ℤ × AllocCollection
  unfolding available_loop
  get_available_ghs s = available_loop s s.miner_contracts (pos 0) new_alloc_collection

  unfoldable pub set_splits : AllocSnap → String → ℤ → List (Split f) → AllocSnap
  unfolding set_item
  set_splits s miner_id hashrate_ghs [] = s
  set_splits s miner_id hashrate_ghs (item ∷ rest) =
      set_splits (set_item s miner_id item.id item.percentage hashrate_ghs) miner_id hashrate_ghs
        rest

  -- `CreateMinerSnapshot` over the miners in the order of the collection's range.
  unfoldable pub add_miners : ℤ → AllocSnap → List (Scheduler f) → AllocSnap
  unfolding set_splits
  add_miners now s [] = s
  add_miners now s (m ∷ ms) =
      add_miners now
        (if is_vetted f now m
          then set_splits (set_miner s m.id m.hashrate_ghs) m.id m.hashrate_ghs m.dest_split
          else s)
        ms

  unfoldable pub create_miner_snapshot : ℤ → List (Scheduler f) → AllocSnap
  unfolding add_miners
  create_miner_snapshot now miners = add_miners now new_alloc_snap miners
