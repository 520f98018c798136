-- ===== src/Examples/Outside.antt =====
-- blockchain/, tcpserver/, data/ and the cycle of a miner on small inputs.
use hash_router.Common.{
  ◌≡◌, refl, ℕ, String, Bool, true, false, none, some, List, [], ◌∷◌, ◌++◌, map, All, arith, str_eq,
  if◌then◌else◌,
}
use hash_router.Common.Int.{ℤ, pos, ◌-ℤ◌, ◌+ℤ◌}
use hash_router.Float.Hundredths.{hundredths}
use hash_router.Blockchain.Retry.{linear_backoff}
use hash_router.Blockchain.Subscription.{
  subscribe_failed, subscribed, log, gave_up, connecting, new_subscription, run, repeat,
  unsubscribe,
}
use hash_router.Blockchain.Subscription.Outages.{
  outages, all_logs, run-outages_within, run-outages_beyond,
}
use hash_router.Blockchain.Subscription.Unsubscribe.{without_unsubscribe, run-without_unsubscribe}
use hash_router.Blockchain.Gateway.{Chain, read_contracts, set_contract_close_out}
use hash_router.Blockchain.Gateway.Owned.{
  is_ok, value_or_nil, readable, owned, read_contracts-owned,
}
use hash_router.Blockchain.Closeout.{
  Turns, Request, Reach, here, next, call, start, finish, idle, IsFaithful, Reach-own_result,
}
use hash_router.Server.PeekJson.{
  peek_json, is_open, is_closed, plain, bracket, empty, peek_json-IsBalanced,
}
use hash_router.Stores.EventBus.{EventBus, EventChannel}
use hash_router.Stores.Repository.{
  Model, new_repository, serve_all, saved, found, waits, when_blocked, call_save, call_get,
  serve_all-save,
}
use hash_router.Miner.DestSplit.{
  Split, allocate_remaining, get_unallocated, get_allocated, sum_percentages, copy, allocate_exact,
}
use hash_router.Miner.Scheduler.{Scheduler, get_dest}
use hash_router.Miner.Scheduler.Cycle.{begin_cycle, run_events, timer}
use hash_router.Miner.Scheduler.Visits.{IsOn, begin_cycle-IsOn}

-- 2 and 15 seconds, in seconds
abbrev backoff : ℕ → ℤ × Bool
backoff = linear_backoff (pos 2) (some 3) (some (pos 15))

abbrev two_outages : List (ℕ × List String)
two_outages = (2, "a" ∷ "b" ∷ []) ∷ (3, "c" ∷ []) ∷ []

run-outages_within_example :
    let s = run (some backoff) new_subscription (outages two_outages) in
    (s.phase ≡ connecting) × (s.attempt ≡ 0) × (s.logs ≡ all_logs two_outages)
run-outages_within_example =
    run-outages_within (pos 2) 3 (some (pos 15)) two_outages (omega arith, (omega arith, tt))

run-outages_beyond_example :
    let s = run (some backoff) new_subscription (
      outages two_outages
      ++ (repeat 3 subscribe_failed ++ subscribe_failed ∷ subscribed ∷ log "d" ∷ [])) in
    (s.phase ≡ gave_up) × (s.logs ≡ all_logs two_outages)
run-outages_beyond_example =
    run-outages_beyond (pos 2) 3 (some (pos 15)) two_outages (subscribed ∷ log "d" ∷ [])
      (omega arith, (omega arith, tt))

run-without_unsubscribe_example :
    run (some backoff) new_subscription (subscribed ∷ unsubscribe ∷ log "a" ∷ [])
    ≡ run
        (some backoff)
        new_subscription
        (without_unsubscribe (subscribed ∷ unsubscribe ∷ log "a" ∷ []))
run-without_unsubscribe_example =
    run-without_unsubscribe (some backoff) (subscribed ∷ unsubscribe ∷ log "a" ∷ [])

abbrev chain : Chain
chain = record {
  get_contract_list = some ("c1" ∷ "c2" ∷ []);
  new_implementation = λ a. true;
  buyer = λ a. some "b";
  seller = λ a. if str_eq a "c1" then some "me" else some "you";
  encrypted_pool_data = λ a. some "pool";
  parse_dest = λ u. some u;
  get_public_variables = λ a. none;
  private_key_ok = true;
  chain_id_ok = true;
  pending_nonce_at = λ a. some 5;
  transactor_ok = true;
  accepts = λ tx. true;
}

read_contracts-owned_example :
    (is_ok (read_contracts chain "me" false) ≡ readable chain false ("c1" ∷ "c2" ∷ []))
    × (value_or_nil (read_contracts chain "me" false) ≡ (
        if readable chain false ("c1" ∷ "c2" ∷ [])
        then owned chain "me" false ("c1" ∷ "c2" ∷ [])
        else []))
read_contracts-owned_example = read_contracts-owned chain "me" false ("c1" ∷ "c2" ∷ []) refl

mine : owned chain "me" false ("c1" ∷ "c2" ∷ []) ≡ "c1" ∷ []
unfolding owned
mine = refl

abbrev request : Request
request = record {
  caller = "x";
  from_address = "me";
  contract_address = "c1";
  closeout_type = pos 2;
}

abbrev served_once : Turns
served_once = record {
  calling = [];
  serving = none;
  waiting = [];
  answers =
      record {
        receiver = "x";
        request = request;
        chain = chain;
        result = set_contract_close_out chain "me" "c1" (pos 2);
      }
      ∷ [];
}

served_once-Reach : Reach served_once
unfolding idle
served_once-Reach =
    next (next (next here (call request)) (start request [] [] refl refl))
      (finish chain request "x" [] [] refl refl)

Reach-own_result_example : (served_once.waiting ≡ []) × All IsFaithful served_once.answers
Reach-own_result_example = Reach-own_result served_once served_once-Reach

-- {"a":[]} up to what follows it
peek_json-IsBalanced_example :
    peek_json 4096 ((123 ∷ ((34 ∷ 97 ∷ 34 ∷ 58 ∷ 91 ∷ 93 ∷ []) ++ 125 ∷ [])) ++ 10 ∷ [])
    ≡ some (123 ∷ ((34 ∷ 97 ∷ 34 ∷ 58 ∷ 91 ∷ 93 ∷ []) ++ 125 ∷ []))
unfolding is_open is_closed
peek_json-IsBalanced_example =
    peek_json-IsBalanced 4096 123 125 (34 ∷ 97 ∷ 34 ∷ 58 ∷ 91 ∷ 93 ∷ []) (10 ∷ []) refl refl
      (plain 34 refl refl (
        plain 97 refl refl
          (plain 34 refl refl (plain 58 refl refl (bracket 91 93 refl refl empty empty)))))
      (omega arith)

abbrev model : Model
model = record { id = "i"; value = "v"; is_t = true }

serve_all-save_example :
    serve_all new_repository (call_save "n" model ∷ call_get "i" ∷ call_get "i" ∷ [])
    ≡ saved model ∷ found model ∷ waits ∷ []
unfolding new_repository when_blocked
serve_all-save_example = serve_all-save new_repository model "n" (call_get "i" ∷ []) refl refl refl

abbrev miner : Scheduler hundredths
miner = record {
  id = "m";
  dest_split = record { id = "k"; percentage = pos 30; dest = "other" } ∷ [];
  default_dest = "default";
  current_dest = "default";
  hashrate_ghs = pos 100;
  connected_at = pos 0;
  last_dest_change_at = pos 0;
  miner_vetting_period = pos 0;
  dest_min_uptime = pos 1;
  dest_max_uptime = pos 2;
  restart_dest_cycle = false;
}

abbrev share_of_other : Split hundredths
share_of_other = record { id = ""; percentage = pos 30; dest = "other" }

abbrev share_of_default : Split hundredths
share_of_default = record { id = "default-dest"; percentage = pos 70; dest = "default" }

begin_cycle-IsOn_example :
    IsOn hundredths
      (λ d. true)
      share_of_other
      []
      (run_events hundredths
        (λ d. true)
        (begin_cycle hundredths (λ d. true) (pos 0) miner)
        (map (λ t. (t, timer)) (pos 1 ∷ [])))
unfolding get_dest allocate_remaining get_unallocated get_allocated sum_percentages copy
    allocate_exact ◌-ℤ◌ ◌+ℤ◌
begin_cycle-IsOn_example =
    begin_cycle-IsOn hundredths (λ d. true) (pos 0) miner (share_of_default ∷ []) share_of_other []
      (pos 1 ∷ []) refl refl (refl, (refl, tt))

abbrev two_listeners : EventChannel
two_listeners = record {
  listener_channels = record { id = 1; queue = [] } ∷ record { id = 2; queue = "x" ∷ [] } ∷ [];
  last_channel_id = 2;
}

abbrev bus : EventBus
bus = record { event_channels = ("e", two_listeners) ∷ []; buffer_size = 2 }
