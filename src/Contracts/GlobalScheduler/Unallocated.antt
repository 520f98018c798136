-- ===== src/Contracts/GlobalScheduler/Unallocated.antt =====
-- contractmanager/global_scheduler_service.go and contractmanager/miner_hashrate.go: the hash rate
-- that no contract uses. The miners run meanwhile and their hash rates change, so each miner is
-- given twice: as its first reading finds it and as the readings for the list find it.
use hash_router.Common.{
  ◌≡◌, refl, ◌∙◌, ap₂, sym, String, inl, inr, List, [], ◌∷◌, ◌++◌, if◌then◌else◌, Bool-cases, All,
}
use hash_router.Common.Int.{ℤ, pos, ◌+ℤ◌, ◌<ℤ◌, ltb_ℤ, ltb_ℤ→lt}
use hash_router.Float.{Float64}
use hash_router.Miner.Scheduler.{Scheduler, get_unallocated_hashrate_ghs}

pub record HashrateListItem : Type 0 where
  pub hashrate : ℤ
  pub total_hashrate : ℤ
  pub miner_id : String

-- The loop of `TotalHashrateGHS`.
unfoldable pub total_loop : List HashrateListItem → ℤ → ℤ
total_loop [] sum = sum
total_loop (item ∷ m) sum = total_loop m (sum +ℤ item.hashrate)

unfoldable pub total_hashrate_ghs : List HashrateListItem → ℤ
unfolding total_loop
total_hashrate_ghs m = total_loop m (pos 0)

total_loop-append :
    (m : List HashrateListItem) (item : HashrateListItem) (sum : ℤ)
    → total_loop (m ++ (item ∷ [])) sum ≡ total_loop m sum +ℤ item.hashrate
unfolding total_loop
total_loop-append [] item sum = refl
total_loop-append (first ∷ m) item sum = total_loop-append m item (sum +ℤ first.hashrate)

module _ (f : Float64) where
  abbrev pub Readings : Type 0
  Readings = List (Scheduler f × Scheduler f)

  abbrev pub list_item : Scheduler f → HashrateListItem
  list_item miner = record {
    hashrate = get_unallocated_hashrate_ghs f miner;
    total_hashrate = miner.hashrate_ghs;
    miner_id = miner.id;
  }

  -- The callback of the range, over what it has found so far.
  unfoldable pub unallocated_each : Readings → ℤ → List HashrateListItem → ℤ × List HashrateListItem
  unallocated_each [] sum m = (sum, m)
  unallocated_each ((miner, later) ∷ rest) sum m =
      let hashrate = get_unallocated_hashrate_ghs f miner in
      let is_free = ltb_ℤ (pos 0) hashrate in
      unallocated_each rest (if is_free then sum +ℤ hashrate else sum)
        (if is_free then m ++ (list_item later ∷ []) else m)

  -- `GetUnallocatedHashrateGHS` of the service
  unfoldable pub get_unallocated_hashrates : Readings → ℤ × List HashrateListItem
  unfolding unallocated_each
  get_unallocated_hashrates miners = unallocated_each miners (pos 0) []

  -- The miners whose unallocated hash rate is the same at both readings.
  abbrev pub IsSteady : Readings → Type 0
  IsSteady = All (λ r. get_unallocated_hashrate_ghs f r.1 ≡ get_unallocated_hashrate_ghs f r.0)

  abbrev pub IsPositive : List HashrateListItem → Type 0
  IsPositive = All (λ item. pos 0 <ℤ item.hashrate)

  All-append :
      (m : List HashrateListItem) (item : HashrateListItem)
      → IsPositive m
      → pos 0 <ℤ item.hashrate
      → IsPositive (m ++ (item ∷ []))
  All-append [] item h p = (p, _)
  All-append (first ∷ m) item h p = (h.0, All-append m item h.1 p)

  each_total :
      (miners : Readings) (sum : ℤ) (m : List HashrateListItem)
      → IsSteady miners
      → sum ≡ total_hashrate_ghs m
      → IsPositive m
      → let (sum', m') = unallocated_each miners sum m in
        (sum' ≡ total_hashrate_ghs m') × IsPositive m'
  unfolding unallocated_each total_hashrate_ghs
  each_total [] sum m h e p = (e, p)
  each_total ((miner, later) ∷ rest) sum m h e p =
      let hashrate = get_unallocated_hashrate_ghs f miner in
      elim (Bool-cases (ltb_ℤ (pos 0) hashrate)) [
        | inl free ↦
            rw (free, unallocated_each)
              (each_total rest (sum +ℤ hashrate) (m ++ (list_item later ∷ [])) h.1
                (ap₂ ◌+ℤ◌ e (sym h.0) ∙ sym (total_loop-append m (list_item later) (pos 0)))
                (All-append m (list_item later) p (rw h.0 (ltb_ℤ→lt (pos 0) hashrate free))))
        | inr full ↦ rw (full, unallocated_each) (each_total rest sum m h.1 e p)
      ]

  -- If no miner's unallocated hash rate changes between the readings, then the sum that the service
  -- returns is the total of the list that it returns, and every item of the list has a hash rate
  -- above 0.
  pub get_unallocated_hashrates_total :
      (miners : Readings)
      → IsSteady miners
      → let (sum, m) = get_unallocated_hashrates miners in
        (sum ≡ total_hashrate_ghs m) × IsPositive m
  unfolding get_unallocated_hashrates total_hashrate_ghs
  get_unallocated_hashrates_total miners h = each_total miners (pos 0) [] h refl _
