-- ===== src/Contracts/Contract.antt =====
-- contractmanager/contract_model.go: one hash-rate contract, from its purchase to its close-out,
-- with the data that blockchain/contract_data.go defines. An address is its text. The method
-- `FulfillContract` runs beside the event loop `listenContractEvents`; each is split where it
-- waits, and a step says what is done up to the next wait.
pub mod Lifecycle
use hash_router.Common.{
  ℕ, ◌+◌, ◌^◌, String, Bool, true, false, not, ◌&&◌, ◌||◌, Option, none, some, List, [], ◌∷◌,
  str_eq, if◌then◌else◌, Result, ok, err,
}
use hash_router.Common.Int.{ℤ, pos, ◌+ℤ◌, ◌*ℤ◌, ◌/ℤ◌, ltb_ℤ}
use hash_router.Blockchain.Retry.{wrap_int64}
use hash_router.Float.{Float64}
use hash_router.Contracts.AllocSnap.{ids}
use hash_router.Contracts.GlobalScheduler.{
  GlobalScheduler, SchedulerError, allocate_contract, deallocate_contract,
}
use hash_router.Contracts.GlobalScheduler.Update.{update_combination}

-- ContractBlockchainState; other values of the uint8 are `other`
pub data BlockchainState : Type 0 where
  bc_available bc_running : BlockchainState
  bc_other : ℕ → BlockchainState

-- ContractState
pub data ContractState : Type 0 where
  available purchased running closed : ContractState

-- constants.CloseoutType
pub data CloseoutType : Type 0 where
  cancel only_withdraw without_claim with_claim : CloseoutType

-- The numbers that the contract on the blockchain takes.
unfoldable pub closeout_code : CloseoutType → ℕ
closeout_code cancel = 0
closeout_code only_withdraw = 1
closeout_code without_claim = 2
closeout_code with_claim = 3

pub record ContractData : Type 0 where
  pub addr : String
  pub buyer : String
  pub seller : String
  pub bc_state : BlockchainState
  pub price : ℤ
  pub limit : ℤ
  pub speed : ℤ
  pub contract_length : ℤ
  pub starting_block_timestamp : ℤ
  pub dest : String

pub record Contract : Type 0 where
  pub info : ContractData
  pub is_buyer : Bool
  pub state : ContractState
  pub miner_ids : List String

-- `NewContract`
unfoldable pub new_contract : ContractData → Bool → Contract
new_contract info is_buyer = record {
  info = info;
  is_buyer = is_buyer;
  state = available;
  miner_ids = [];
}

abbrev pub is_bc_available : BlockchainState → Bool
is_bc_available bc_available = true
is_bc_available _ = false

abbrev pub is_bc_running : BlockchainState → Bool
is_bc_running bc_running = true
is_bc_running _ = false

-- `Ignore`, which points the contract of a buyer to the default destination
unfoldable pub ignore : Contract → String → String → Contract × Bool
ignore c wallet_address default_dest =
    if c.is_buyer
    then (if is_bc_available c.info.bc_state || not (str_eq c.info.buyer wallet_address)
        then (c, true)
        else (record c { info = record c.info { dest = default_dest } }, false))
    else if is_bc_running c.info.bc_state || not (str_eq c.info.seller wallet_address)
    then (c, true)
    else (c, false)

-- `GetHashrateGHS`: Speed / 10^9
unfoldable pub get_hashrate_ghs : Contract → ℤ
get_hashrate_ghs c = c.info.speed /ℤ pos (10 ^ 9)

-- `GetDuration`: nanoseconds in an int64, which wraps around.
unfoldable pub get_duration : Contract → ℤ
unfolding wrap_int64
get_duration c = wrap_int64 (c.info.contract_length *ℤ pos (10 ^ 9))

-- `GetStartTime`: a time in nanoseconds, which Go keeps as seconds and nanoseconds.
unfoldable pub get_start_time : Contract → ℤ
get_start_time c = c.info.starting_block_timestamp *ℤ pos (10 ^ 9)

-- `GetEndTime`, in nanoseconds
unfoldable pub get_end_time : Contract → ℤ
unfolding get_start_time get_duration
get_end_time c = get_start_time c +ℤ get_duration c

-- `ContractIsExpired`; `GetEndTime` is never nil. The times are in nanoseconds.
unfoldable pub contract_is_expired : ℤ → Contract → Bool
contract_is_expired now c = ltb_ℤ (get_end_time c) now

unfoldable pub get_closeout_type : Contract → CloseoutType
get_closeout_type c = if c.is_buyer then cancel else without_claim

unfoldable pub get_closeout_account : Contract → String
get_closeout_account c = if c.is_buyer then c.info.buyer else c.info.seller

-- `LoadBlockchainContract`, with what ReadContract answers; `none` is an error
unfoldable pub load_blockchain_contract : Contract → Option ContractData → Contract × Bool
load_blockchain_contract c none = (c, false)
load_blockchain_contract c (some info) = (record c { info = info }, true)

abbrev pub is_active : ContractState → Bool
is_active running = true
is_active purchased = true
is_active _ = false

-- The topics that the event loop tells apart.
pub data ContractEvent : Type 0 where
  contract_purchased cipher_text_updated purchase_info_updated contract_closed : ContractEvent
  unknown_event : ContractEvent

-- The errors that `FulfillContract` returns.
pub data FulfillError : Type 0 where
  expired : FulfillError
  not_allocated : SchedulerError → FulfillError

-- The contract and the scheduler that it shares with the other contracts.
pub record World (f : Float64) : Type 0 where
  pub contract : Contract
  pub scheduler : GlobalScheduler f

-- A call of SetContractCloseOut: the account, the contract and the type.
pub record CloseoutCall : Type 0 where
  pub account : String
  pub address : String
  pub closeout_type : CloseoutType

module _ (f : Float64) where
  -- `Stop`; `none` is a panic
  unfoldable pub stop : World f → Option (World f)
  stop w =
      let c = w.contract in
      let stopped : Contract = record c { state = available } in
      if is_active c.state
      then elim (deallocate_contract f w.scheduler.miners c.miner_ids c.info.addr) [
        | none ↦ none
        | some miners ↦
            some (record { contract = stopped; scheduler = record w.scheduler { miners = miners } })
      ]
      else some w

  -- `Close`: `Stop`, and then the call to the blockchain.
  unfoldable pub close : World f → Option (World f × CloseoutCall)
  unfolding stop
  close w = elim (stop w) [
    | none ↦ none
    | some w' ↦
        let c = w'.contract in
        some (
          w',
          record {
            account = get_closeout_account c;
            address = c.info.addr;
            closeout_type = get_closeout_type c;
          },
        )
  ]

  -- What one event does; `some (w, true)` asks for `FulfillContract` in a goroutine. In the
  -- source's switch the case of a new cipher text has no statement.
  unfoldable pub handle_event :
      World f → ContractEvent → Option ContractData → Option (World f × Bool)
  handle_event w contract_purchased read =
      let (c, loaded) = load_blockchain_contract w.contract read in
      some (record w { contract = c }, loaded)
  handle_event w cipher_text_updated read = some (w, false)
  handle_event w purchase_info_updated read =
      some (record w { contract = (load_blockchain_contract w.contract read).0 }, false)
  handle_event w contract_closed read = elim (stop w) [ none ↦ none | some w' ↦ some (w', false) ]
  handle_event w unknown_event read = some (w, false)

  module _ (sort_strings : List String → List String) (shuffle : ℕ → List ℕ → List ℕ) where
    -- `StartHashrateAllocation`
    unfoldable pub start_hashrate_allocation :
        ℕ → ℤ → World f → World f × Result FulfillError (List String)
    start_hashrate_allocation k now w =
        let c : Contract = record w.contract { state = running } in
        let (s, r) =
          allocate_contract f sort_strings shuffle k now w.scheduler c.info.addr
            (get_hashrate_ghs c) c.info.dest in
        elim r [
          | ok miner_list ↦ (
            record { contract = record c { miner_ids = ids f miner_list }; scheduler = s },
            ok (ids f miner_list),
          )
          | err e ↦ (record { contract = c; scheduler = s }, err (not_allocated e))
        ]

    -- A round of the loop of `FulfillContract`. `none` is a panic.
    unfoldable pub running_round :
        ℕ → ℤ → World f → Option (World f × Result FulfillError (List String))
    running_round k now w =
        let c = w.contract in
        if contract_is_expired now c
        then some (w, err expired)
        else elim (update_combination f sort_strings shuffle k now w.scheduler c.miner_ids
            (get_hashrate_ghs c) c.info.dest c.info.addr) [
              | none ↦ none
              | some (s, r) ↦ elim r [
                | err e ↦ some (record w { scheduler = s }, err expired)
                | ok miner_ids ↦ some (
                  record { contract = record c { miner_ids = miner_ids }; scheduler = s },
                  ok miner_ids,
                )
              ]
            ]

    -- `FulfillContract` up to its first wait.
    unfoldable pub fulfill_contract :
        ℕ → ℤ → World f → Option (World f × Result FulfillError (List String))
    unfolding start_hashrate_allocation running_round
    fulfill_contract k now w =
        let w' : World f = record w { contract = record w.contract { state = purchased } } in
        let (started, r) = start_hashrate_allocation k now w' in
        if contract_is_expired now w'.contract then some (w', err expired) else elim r [
          | err e ↦ some (started, err e)
          | ok miner_ids ↦ running_round (200 + k) now started
        ]

  -- What the goroutine does when `FulfillContract` returns an error: the contract is closed.
  unfoldable pub after_fulfill :
      World f × Result FulfillError (List String) → Option (World f × Option CloseoutCall)
  unfolding close
  after_fulfill (w, ok miner_ids) = some (w, none)
  after_fulfill (w, err e) = elim (close w) [ none ↦ none | some (w', call) ↦ some (w', some call) ]
