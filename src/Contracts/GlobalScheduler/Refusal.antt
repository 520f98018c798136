-- ===== src/Contracts/GlobalScheduler/Refusal.antt =====
-- contractmanager/global_scheduler_service.go: when `Allocate` refuses a contract, and which miners
-- it touches.
use hash_router.Common.{
  ℕ, ◌≡◌, refl, ◌∙◌, ◌⊎◌, ◌≢◌, String, List, [], ◌∷◌, arith, eq_iff, ok, err, All, Bool-cases,
  Option-cases, inl, inr,
}
use hash_router.Common.Int.{ℤ, ltb_ℤ, ◌<ℤ◌, ◌≤ℤ◌, ltb_ℤ→lt, ltb_ℤ→le}
use hash_router.Common.Dict.{Dict, get, put, get-put}
use hash_router.Float.{Float64}
use hash_router.Miner.Scheduler.{Scheduler, allocate_miner}
use hash_router.Contracts.AllocSnap.{AllocItem, AllocCollection, items, get_available_ghs}
use hash_router.Contracts.GlobalScheduler.{
  GlobalScheduler, not_enough_hashrate, get_miner_snapshot, allocate_items, allocate_contract,
}

module _ (f : Float64) where
  -- The miners of a combination, by the IDs of its items.
  abbrev pub IsNotIn : String → List (AllocItem f) → Type 0
  IsNotIn j l = All (λ item. item.miner_id ≢ j) l

  allocate_items-others :
      (miners : Dict (Scheduler f)) (contract_id dest : String) (l : List (AllocItem f))
      (j : String)
      → IsNotIn j l
      → get (allocate_items f miners contract_id dest l) j ≡ get miners j
  unfolding allocate_items
  allocate_items-others miners contract_id dest [] j h = refl
  allocate_items-others miners contract_id dest (item ∷ rest) j h =
      elim (Option-cases (get miners item.miner_id)) [
        | inl gone ↦ rw gone (allocate_items-others miners contract_id dest rest j h.1)
        | inr (miner, there) ↦
            let miner' = (allocate_miner f miner contract_id item.fraction dest).0 in
            rw there (
              allocate_items-others (put miners item.miner_id miner') contract_id dest rest j h.1
              ∙ ground (arith, get-put miners item.miner_id j miner', eq_iff item.miner_id j, h.0))
      ]

  module _ (sort_strings : List String → List String) (shuffle : ℕ → List ℕ → List ℕ) where
    -- `Allocate` refuses a contract exactly when the snapshot has less than the asked hash rate
    -- unallocated, and then changes nothing. Otherwise it returns a combination, and a miner
    -- outside that combination is left as it was.
    pub allocate_contract-cases :
        (k : ℕ) (now : ℤ) (s : GlobalScheduler f) (contract_id dest : String) (ghs : ℤ)
        → let available = (get_available_ghs f (get_miner_snapshot f now s)).0 in
          let (s', r) = allocate_contract f sort_strings shuffle k now s contract_id ghs dest in
          ((available <ℤ ghs) × (r ≡ err not_enough_hashrate) × (s' ≡ s))
          ⊎ ((ghs ≤ℤ available)
              × (c : AllocCollection f) × (r ≡ ok c)
              × ((j : String) → IsNotIn j (items f c) → get s'.miners j ≡ get s.miners j))
    unfolding allocate_contract
    allocate_contract-cases k now s contract_id dest ghs =
        let available = (get_available_ghs f (get_miner_snapshot f now s)).0 in
        elim (Bool-cases (ltb_ℤ available ghs)) [
          | inl short ↦ inl (rw short (ltb_ℤ→lt available ghs short, refl, refl))
          | inr fits ↦ inr (
              rw fits (
                ltb_ℤ→le available ghs fits,
                _,
                refl,
                λ j h. allocate_items-others s.miners contract_id dest _ j h,
              ))
        ]
