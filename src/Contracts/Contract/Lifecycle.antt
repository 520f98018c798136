-- ===== src/Contracts/Contract/Lifecycle.antt =====
-- contractmanager/contract_model.go: how a contract is closed, and which events change its data.
use hash_router.Common.{
  if◌then◌else◌, ◌≡◌, refl, ◌≢◌, String, true, Option, none, some, List, [], ◌∷◌, arith, ap, ◌∙◌,
  ◌+◌, All, ℕ, ok, err, Result, ◌⊎◌, inl, inr, Bool-cases,
}
use hash_router.Common.Int.{ℤ, ◌<ℤ◌, ltb_ℤ, lt→ltb_ℤ}
use hash_router.Common.Dict.{Dict, get}
use hash_router.Float.{Float64}
use hash_router.Miner.Scheduler.{Scheduler}
use hash_router.Contracts.GlobalScheduler.{
  GlobalScheduler, deallocate_contract, allocate_contract, get_miner_snapshot, not_enough_hashrate,
  SchedulerError,
}
use hash_router.Contracts.AllocSnap.{AllocCollection, get_available_ghs, ids}
use hash_router.Contracts.GlobalScheduler.Stop.{IsServedOnce, serves, deallocate_contract-stops}
use hash_router.Contracts.Contract.{
  ContractData, Contract, available, World, CloseoutCall, is_active, stop, close, closeout_code,
  get_closeout_type, get_closeout_account, ContractEvent, contract_purchased, cipher_text_updated,
  purchase_info_updated, contract_closed, unknown_event, handle_event, load_blockchain_contract,
  contract_is_expired, get_end_time, fulfill_contract, after_fulfill, start_hashrate_allocation,
  running_round, get_hashrate_ghs, not_allocated, FulfillError, purchased, running,
}

-- The call that the contract expects at the end: a buyer cancels, at 0, and a seller closes
-- without a claim, at 2.
abbrev pub IsCloseout : Contract → CloseoutCall → Type 0
IsCloseout c call =
    (call.address ≡ c.info.addr)
    × (call.account ≡ (if c.is_buyer then c.info.buyer else c.info.seller))
    × (closeout_code call.closeout_type ≡ (if c.is_buyer then 0 else 2))

get_closeout_type-IsCloseout :
    (c : Contract)
    → IsCloseout c (record {
      account = get_closeout_account c;
      address = c.info.addr;
      closeout_type = get_closeout_type c;
    })
unfolding get_closeout_account get_closeout_type closeout_code
get_closeout_type-IsCloseout c = (refl, refl, ground arith)

module _ (f : Float64) where
  stop-deallocate_contract :
      (w : World f) (miners : Dict (Scheduler f))
      → is_active w.contract.state ≡ true
      → deallocate_contract f w.scheduler.miners w.contract.miner_ids w.contract.info.addr
        ≡ some miners
      → stop f w
        ≡ some (record {
          contract = record w.contract { state = available };
          scheduler = record w.scheduler { miners = miners };
        })
  unfolding stop
  stop-deallocate_contract w miners active e = rw (stop, active, e) refl

  -- Closing a contract that is served, on miners of which none has two splits of it, goes through.
  -- The contract is available again, none of its miners has a split of it, no miner off its list
  -- is touched, and the close-out is called for the right party, on this contract, with the type
  -- of its role.
  pub close-stops :
      (w : World f)
      → is_active w.contract.state ≡ true
      → IsServedOnce f w.scheduler.miners w.contract.info.addr
      → (w' : World f) × (call : CloseoutCall) × (close f w ≡ some (w', call))
        × (w'.contract ≡ record w.contract { state = available })
        × All (λ j. serves f w'.scheduler.miners j w.contract.info.addr ≡ none) w.contract.miner_ids
        × ((j : String)
            → All (λ i. i ≢ j) w.contract.miner_ids
            → get w'.scheduler.miners j ≡ get w.scheduler.miners j)
        × IsCloseout w.contract call
  unfolding close get_closeout_account get_closeout_type
  close-stops w active once =
      let (miners, e, off, others) =
        deallocate_contract-stops f w.scheduler.miners w.contract.miner_ids w.contract.info.addr
          once in
      (
        record {
          contract = record w.contract { state = available };
          scheduler = record w.scheduler { miners = miners };
        },
        record {
          account = get_closeout_account w.contract;
          address = w.contract.info.addr;
          closeout_type = get_closeout_type w.contract;
        },
        rw (close, stop-deallocate_contract w miners active e) refl,
        refl,
        off,
        others,
        get_closeout_type-IsCloseout w.contract,
      )

  -- What the loop of `listenContractEvents` does with a run of events, each with what reading the
  -- contract answers; the goroutines that it starts are left out.
  unfoldable pub handle_events :
      World f → List (ContractEvent × Option ContractData) → Option (World f)
  unfolding handle_event
  handle_events w [] = some w
  handle_events w (e ∷ es) = elim (handle_event f w e.0 e.1) [
    | none ↦ none
    | some (w', wanted) ↦ handle_events w' es
  ]

  -- The data that the last read left, over the events that read.
  unfoldable pub last_read :
      ContractData → List (ContractEvent × Option ContractData) → ContractData
  last_read info [] = info
  last_read info ((contract_purchased, some new) ∷ es) = last_read new es
  last_read info ((purchase_info_updated, some new) ∷ es) = last_read new es
  last_read info (e ∷ es) = last_read info es

  -- Up to the closing of the contract, the event loop goes through every event and ends with the
  -- data that the last readable event of a purchase or of an updated purchase left. An updated
  -- cipher text, which carries a new destination, changes nothing.
  pub handle_events-last_read :
      (w : World f) (es : List (ContractEvent × Option ContractData))
      → All (λ e. e.0 ≢ contract_closed) es
      → handle_events w es
        ≡ some (record w { contract = record w.contract { info = last_read w.contract.info es } })
  unfolding handle_events last_read handle_event load_blockchain_contract
  handle_events-last_read w [] h = refl
  handle_events-last_read w ((contract_purchased, none) ∷ es) h = handle_events-last_read w es h.1
  handle_events-last_read w ((contract_purchased, some new) ∷ es) h =
      handle_events-last_read (record w { contract = record w.contract { info = new } }) es h.1
  handle_events-last_read w ((cipher_text_updated, read) ∷ es) h = handle_events-last_read w es h.1
  handle_events-last_read w ((purchase_info_updated, none) ∷ es) h =
      handle_events-last_read w es h.1
  handle_events-last_read w ((purchase_info_updated, some new) ∷ es) h =
      handle_events-last_read (record w { contract = record w.contract { info = new } }) es h.1
  handle_events-last_read w ((contract_closed, read) ∷ es) h = elim (h.0 refl) [ ]
  handle_events-last_read w ((unknown_event, read) ∷ es) h = handle_events-last_read w es h.1

  module _ (sort_strings : List String → List String) (shuffle : ℕ → List ℕ → List ℕ) where
    allocate_contract-refuses :
        (k : ℕ) (now : ℤ) (s : GlobalScheduler f) (contract_id dest : String) (ghs : ℤ)
        → ltb_ℤ (get_available_ghs f (get_miner_snapshot f now s)).0 ghs ≡ true
        → allocate_contract f sort_strings shuffle k now s contract_id ghs dest
          ≡ (s, err not_enough_hashrate)
    unfolding allocate_contract
    allocate_contract-refuses k now s contract_id dest ghs short =
        rw (short, allocate_contract) refl

    start_hashrate_allocation-refused :
        (k : ℕ) (now : ℤ) (w : World f)
        → ltb_ℤ
            (get_available_ghs f (get_miner_snapshot f now w.scheduler)).0
            (get_hashrate_ghs w.contract)
          ≡ true
        → start_hashrate_allocation f sort_strings shuffle k now w ≡ (
          record w { contract = record w.contract { state = running } },
          err (not_allocated not_enough_hashrate),
        )
    unfolding start_hashrate_allocation get_hashrate_ghs
    start_hashrate_allocation-refused k now w short =
        let c : Contract = record w.contract { state = running } in
        let started : GlobalScheduler f × Result SchedulerError (AllocCollection f)
            → World f × Result FulfillError (List String) =
          λ x. elim x.1 [
            | ok miner_list ↦ (
              record { contract = record c { miner_ids = ids f miner_list }; scheduler = x.0 },
              ok (ids f miner_list),
            )
            | err e ↦ (record { contract = c; scheduler = x.0 }, err (not_allocated e))
          ] in
        ap started (
          allocate_contract-refuses k now w.scheduler w.contract.info.addr w.contract.info.dest
            (get_hashrate_ghs w.contract) short)

    -- A contract without miners that is bought after its end, or for more hash rate than the miners
    -- have unallocated, is closed at once: the goroutine fulfils nothing, leaves every miner as it was,
    -- and calls the close-out for the right party, on this contract, with the type of its role.
    pub fulfill_contract-closes :
        (k : ℕ) (now : ℤ) (w : World f)
        → (contract_is_expired now w.contract ≡ true)
          ⊎ ((get_available_ghs f (get_miner_snapshot f now w.scheduler)).0
              <ℤ get_hashrate_ghs w.contract)
        → w.contract.miner_ids ≡ []
        → (call : CloseoutCall) × (elim (fulfill_contract f sort_strings shuffle k now w) [
          | none ↦ none
          | some r ↦ after_fulfill f r
        ]
            ≡ some (record w { contract = record w.contract { state = available } }, some call))
          × IsCloseout w.contract call
    unfolding fulfill_contract after_fulfill close stop deallocate_contract contract_is_expired
        get_end_time get_hashrate_ghs get_closeout_account get_closeout_type
    fulfill_contract-closes k now w failed fresh =
        let c = w.contract in
        let finished : World f × Result FulfillError (List String)
            → Option (World f × Option CloseoutCall) =
          λ x.
            elim (elim x.1 as (λ r. Option (World f × Result FulfillError (List String))) [
              | err e ↦ some (x.0, err e)
              | ok miner_ids ↦ running_round f sort_strings shuffle (200 + k) now x.0
            ]) [ none ↦ none | some r ↦ after_fulfill f r ] in
        let free = (get_available_ghs f (get_miner_snapshot f now w.scheduler)).0 in
        let closing : CloseoutCall = record {
          account = get_closeout_account c;
          address = c.info.addr;
          closeout_type = get_closeout_type c;
        } in
        elim (Bool-cases (contract_is_expired now c)) [
          | inl over ↦ (closing, rw (over, fresh) refl, get_closeout_type-IsCloseout c)
          | inr live ↦ elim failed [
            | inl over ↦ absurd (ground (arith, live, over))
            | inr short ↦
                let dear : ltb_ℤ free (get_hashrate_ghs c) ≡ true =
                  lt→ltb_ℤ free (get_hashrate_ghs c) short in
                (
                  closing,
                  rw (live, fulfill_contract)
                      (ap finished (
                          start_hashrate_allocation-refused k now
                            (record w { contract = record c { state = purchased } }) dear)
                        ∙ rw fresh refl),
                  get_closeout_type-IsCloseout c,
                )
          ]
        ]
