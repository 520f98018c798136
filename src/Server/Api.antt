-- ===== src/Server/Api.antt =====
-- api/controller.go: the requests of the API. gin, which calls the handlers, is left out: a request is
-- the value of its query, an answer its status. A collection is the list of its items in the order in
-- which Range visits them.
use Prim.Native.String.{compare}
use Prim.Native.Nat.{Ordering}
use hash_router.Common.{
  ◌≡◌, refl, arith, ◌^◌, String, Bool, true, false, Option, none, some, List, [], ◌∷◌, ◌++◌, map,
  if◌then◌else◌, str_eq, All,
}
use hash_router.Common.Int.{◌-ℤ◌, ℤ, pos, ◌*ℤ◌, ◌/ℤ◌}
use hash_router.Float.{Float64}
use hash_router.Miner.DestSplit.{iter}
use hash_router.Miner.Scheduler.{
  Scheduler, MinerStatus, vetting, free, busy, get_status, get_uptime,
}
use hash_router.Contracts.Contract.{
  Contract, ContractState, available, purchased, running, closed, bc_running, new_contract,
  get_hashrate_ghs, get_duration, get_start_time, get_end_time,
}
use hash_router.Blockchain.Retry.{wrap_int64}

pub record DestItem (f : Float64) : Type 0 where
  pub uri : String
  pub fraction : f.Number

-- HashrateAvgGHS
pub record HashrateAvg : Type 0 where
  pub t5m : ℤ
  pub t30m : ℤ
  pub t1h : ℤ

-- What a scheduler passes on of its miner model.
pub record Reading : Type 0 where
  pub hashrate_avg_ghs : HashrateAvg
  pub current_difficulty : ℤ
  pub worker_name : String

-- The struct Miner of the API.
pub record MinerItem (f : Float64) : Type 0 where
  pub id : String
  pub status : String
  pub total_hashrate_ghs : ℤ
  pub hashrate_avg_ghs : HashrateAvg
  pub destinations : List (DestItem f)
  pub current_destination : String
  pub current_difficulty : ℤ
  pub worker_name : String
  pub connected_at : String
  pub uptime_seconds : ℤ

-- The struct Contract of the API.
pub record ContractItem : Type 0 where
  pub id : String
  pub buyer_addr : String
  pub seller_addr : String
  pub hashrate_ghs : ℤ
  pub duration_seconds : ℤ
  pub start_timestamp : Option String
  pub end_timestamp : Option String
  pub state : String
  pub dest : String

-- `String` of a MinerStatus (miner/miner_status.go)
unfoldable pub status_string : MinerStatus → String
status_string vetting = "vetting"
status_string free = "free"
status_string busy = "busy"

-- `MapContractState`
unfoldable pub map_contract_state : ContractState → String
map_contract_state available = "available"
map_contract_state purchased = "purchased"
map_contract_state running = "running"
map_contract_state closed = "closed"

unfoldable pub time_ptr_to_string_ptr : (ℤ → String) → Option ℤ → Option String
time_ptr_to_string_ptr format none = none
time_ptr_to_string_ptr format (some t) = some (format t)

abbrev str_lt : String → String → Bool
str_lt a b = elim (compare a b) [ Ordering.lt ↦ true | _ ↦ false ]

-- slices.SortStableFunc by the id: an item goes behind those that are not above it.
module _ {A : Type 0} (id_of : A → String) where
  unfoldable pub insert_by_id : A → List A → List A
  insert_by_id a [] = a ∷ []
  insert_by_id a (b ∷ l) =
      let behind = b ∷ insert_by_id a l in if str_lt (id_of b) (id_of a) then behind else a ∷ b ∷ l

  unfoldable pub sort_by_id : List A → List A
  unfolding insert_by_id
  sort_by_id [] = []
  sort_by_id (a ∷ l) = insert_by_id a (sort_by_id l)

-- time.Format by RFC3339
module _ (f : Float64) (format_time : ℤ → String) where
  unfoldable pub miner_item : ℤ → Scheduler f × Reading → MinerItem f
  unfolding status_string
  miner_item now (miner, reading) = record {
    id = miner.id;
    status = status_string (get_status f now miner);
    total_hashrate_ghs = miner.hashrate_ghs;
    hashrate_avg_ghs = reading.hashrate_avg_ghs;
    destinations =
        map (λ item. record { uri = item.dest; fraction = item.percentage })
          (iter f miner.dest_split);
    current_destination = miner.current_dest;
    current_difficulty = reading.current_difficulty;
    worker_name = reading.worker_name;
    connected_at = format_time miner.connected_at;
    uptime_seconds = get_uptime f now miner /ℤ pos (10 ^ 9);
  }

  -- `GetMiners`
  unfoldable pub get_miners : ℤ → List (Scheduler f × Reading) → List (MinerItem f)
  unfolding miner_item sort_by_id
  get_miners now miners = sort_by_id (λ m. m.id) (map (miner_item now) miners)

  -- `Seconds` of a duration: the whole seconds and the rest of the nanoseconds, as a number.
  unfoldable pub seconds : ℤ → f.Number
  seconds d =
      let whole = d /ℤ pos (10 ^ 9) in
      f.add (f.of_int whole)
        (f.div (f.of_int (d -ℤ (whole *ℤ pos (10 ^ 9)))) (f.const 1000000000 1))

  -- Neither time of a contract is nil.
  unfoldable pub contract_item : Contract → ContractItem
  unfolding map_contract_state time_ptr_to_string_ptr seconds
  contract_item c = record {
    id = c.info.addr;
    buyer_addr = c.info.buyer;
    seller_addr = c.info.seller;
    hashrate_ghs = get_hashrate_ghs c;
    duration_seconds = f.to_int (seconds (get_duration c));
    start_timestamp = time_ptr_to_string_ptr format_time (some (get_start_time c));
    end_timestamp = time_ptr_to_string_ptr format_time (some (get_end_time c));
    state = map_contract_state c.state;
    dest = c.info.dest;
  }

  -- `GetContracts`
  unfoldable pub get_contracts : List Contract → List ContractItem
  unfolding contract_item sort_by_id
  get_contracts contracts = sort_by_id (λ c. c.id) (map contract_item contracts)

-- The status of an answer.
pub data Status : Type 0 where
  status_ok bad_request internal_error : Status

-- `changeDestAll` of the API: the miners whose destination was changed, in the order of the visit, and
-- whether there is an error. `change_dest` is the answer of ChangeDest for a miner.
unfoldable pub change_dest_each : (String → Bool) → List String → List String × Bool
change_dest_each change_dest [] = ([], true)
change_dest_each change_dest (id ∷ rest) =
    let (changed, ok_rest) = change_dest_each change_dest rest in
    if change_dest id then (id ∷ changed, ok_rest) else ([], false)

-- POST /miners/change-dest; `parse_dest` is lib.ParseDest
unfoldable pub post_change_dest :
    (String → Option String)
    → (String → String → Bool)
    → String
    → List String
    → List String × Status
unfolding change_dest_each
post_change_dest parse_dest change_dest dest ids =
    if str_eq dest "" then ([], bad_request) else elim (parse_dest dest) [
      | none ↦ ([], internal_error)
      | some d ↦
          let (changed, all_changed) = change_dest_each (change_dest d) ids in
          (changed, if all_changed then status_ok else internal_error)
    ]

-- The query of POST /contracts: what ParseDest, ParseInt and ParseDuration give, in seconds, each with
-- whether it is no error. On an error ParseInt gives a bound of the type or 0 and the others give zeros.
pub record ContractQuery : Type 0 where
  pub dest : String
  pub dest_ok : Bool
  pub hr_ghs : ℤ
  pub hr_ghs_ok : Bool
  pub duration : ℤ
  pub duration_ok : Bool

-- AbortWithStatus does not return from the handler: it goes on with what it has. The new contract is
-- also started.
unfoldable pub post_contracts :
    String → String → ℤ → ContractQuery → List Contract → List Contract × Status
unfolding wrap_int64
post_contracts zero_address addr now q contracts =
    let contract =
      new_contract
        (record {
          addr = addr;
          buyer = zero_address;
          seller = zero_address;
          bc_state = bc_running;
          price = pos 0;
          limit = pos 0;
          speed = wrap_int64 (q.hr_ghs *ℤ pos (10 ^ 9));
          contract_length = q.duration;
          starting_block_timestamp = now;
          dest = q.dest;
        })
        false in
    let status =
      if q.dest_ok
      then (if q.hr_ghs_ok then (if q.duration_ok then status_ok else bad_request) else bad_request)
      else bad_request in
    (contracts ++ contract ∷ [], status)

-- The miners before the first that refuses are changed, and no other, and the answer is an error just
-- when one refuses.
change_dest_each-accepts :
    (change_dest : String → Bool) (before : List String) (id : String) (after : List String)
    → All (λ x. change_dest x ≡ true) before
    → change_dest id ≡ false
    → change_dest_each change_dest (before ++ id ∷ after) ≡ (before, false)
unfolding change_dest_each
change_dest_each-accepts change_dest [] id after h e = rw e refl
change_dest_each-accepts change_dest (x ∷ before) id after (h, hs) e =
    ground (arith, h, change_dest_each-accepts change_dest before id after hs e)
