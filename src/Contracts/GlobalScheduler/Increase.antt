-- ===== src/Contracts/GlobalScheduler/Increase.antt =====
-- contractmanager/global_scheduler_service.go: which miner IDs `incAllocation` keeps.
use hash_router.Common.{
  ◌≡◌, ℕ, ◌⊎◌, Result, ok, err, String, Option, some, List, [], ◌∷◌, ◌++◌, if◌then◌else◌, is_some,
  true, false,
}
use hash_router.Common.Int.{ℤ, pos, eq_ℤ}
use hash_router.Common.Dict.{Dict, get}
use hash_router.Float.{Float64}
use hash_router.Miner.Scheduler.{Scheduler}
use hash_router.Contracts.AllocSnap.{AllocCollection, AllocSnap, ids}
use hash_router.Contracts.GlobalScheduler.{GlobalScheduler, SchedulerError, allocate_contract}
use hash_router.Contracts.GlobalScheduler.Update.{IncState}

module _ (f : Float64) where
  -- The miners of a collection that are still connected, in its order.
  unfoldable pub connected_ids : Dict (Scheduler f) → AllocCollection f → List String
  connected_ids miners [] = []
  connected_ids miners ((id, item) ∷ l) =
      let rest = connected_ids miners l in if is_some (get miners id) then id ∷ rest else rest

  -- The same miners are connected.
  abbrev pub SameMiners : Dict (Scheduler f) → Dict (Scheduler f) → Type 0
  SameMiners miners miners' = (j : String) → is_some (get miners' j) ≡ is_some (get miners j)

  -- A round that goes through: what it adds to the IDs, and that no miner comes or goes.
  abbrev Goes : IncState f → String → Option (IncState f) → Type 0
  Goes st id r =
      (st' : IncState f) × (r ≡ some st')
      × (st'.miner_ids
          ≡ (if is_some (get st.miners id) then st.miner_ids ++ id ∷ [] else st.miner_ids))
      × SameMiners st.miners st'.miners

  module _ (sort_strings : List String → List String) (shuffle : ℕ → List ℕ → List ℕ) where
    -- What follows the loop over the miners of the contract, from the hash rate that is missing and the
    -- miners as the loop leaves them: nothing where nothing is missing, and else what `Allocate` does
    -- for the missing hash rate. Its error is returned, or the IDs of its combination go behind the
    -- IDs that were kept.
    abbrev pub Extends :
        ℕ
        → ℤ
        → String
        → String
        → List String
        → GlobalScheduler f
        → ℤ
        → GlobalScheduler f × Result SchedulerError (List String)
        → Type 0
    Extends k now dest c kept s missing (s', r) =
        let (allocated, a) = allocate_contract f sort_strings shuffle k now s c missing dest in
        ((eq_ℤ missing (pos 0) ≡ true) × (s' ≡ s) × (r ≡ ok kept))
        ⊎ ((eq_ℤ missing (pos 0) ≡ false)
            × (s' ≡ allocated)
            × (((e : SchedulerError) × (a ≡ err e) × (r ≡ err e))
                ⊎ ((combination : AllocCollection f) × (a ≡ ok combination)
                    × (r ≡ ok (kept ++ ids f combination)))))
