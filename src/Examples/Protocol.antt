-- ===== src/Examples/Protocol.antt =====
-- protocol/ on one pool and one miner. Every number has the same text, or one text for one and
-- another for the rest.
use hash_router.Common.{
  List, false, ◌+◌, ◌≡◌, refl, String, true, false, none, some, [], ◌∷◌, ◌++◌, if◌then◌else◌, map,
  length, leb,
}
use hash_router.Common.Int.{ℤ, pos, eq_ℤ}
use hash_router.Protocol.PoolConn.{
  submit, unparsed, notify, set_difficulty, Reply, Notify, PoolConn, wait_reply,
  relevant_notifications, resend_relevant_notifications, channel_size,
}
use hash_router.Protocol.PoolConn.Jobs.{
  intercept, notifies, last_difficulty, resumes, resends-relevant,
}
use hash_router.Protocol.PoolConn.Resend.{resend_relevant_notifications-fits}
use hash_router.Protocol.ConnPool.{ConnPool}
use hash_router.Protocol.MinerModel.{
  MinerModel, new_miner_model, configure, subscribe, authorize, is_done, connect_miner,
  on_submit_listener, remove_listener, submit_result,
}
use hash_router.Protocol.MinerModel.Listeners.{register_all, remove_listener-then_share_panics}
use hash_router.Protocol.MinerModel.Relay.{
  Relay, Round, arrives, to_miner_round, to_pool_round, relay_rounds, emitted, all_known, known,
  from_miner, named, relay_rounds-in_order,
}
use hash_router.Protocol.MinerModel.Handshake.{request_ids, reply_id, connect_miner-is_done}

abbrev sprint : ℤ → String
sprint i = if eq_ℤ i (pos 1) then "1" else "other"

abbrev conn : PoolConn
conn = record {
  dest = "pool";
  username = "user";
  notify_msgs = none ∷ [];
  set_diff_msg = none;
  extra_nonce_msg = some ("ab", pos 8);
  configure_msg = none;
  msg_ch = [];
  is_reading = true;
  last_request_id = 0;
  res_handlers = ("1", wait_reply) ∷ [];
}

abbrev idle : PoolConn
idle = record conn { is_reading = false; res_handlers = [] }

abbrev clean : Notify
clean = record { clean_jobs = true; job = "j1" }

abbrev more : Notify
more = record { clean_jobs = false; job = "j2" }

abbrev answer : Reply
answer = record { id = pos 1; is_error = false; text = "true" }

resends-relevant_example :
    relevant_notifications
      (intercept sprint conn ((set_difficulty (pos 5) ∷ []) ++ notify clean ∷ notify more ∷ []))
    ≡ resumes
        ("ab", pos 8)
        (last_difficulty conn.set_diff_msg
          ((set_difficulty (pos 5) ∷ []) ++ notify clean ∷ notify more ∷ []))
        (clean ∷ notifies (notify more ∷ []))
resends-relevant_example =
    resends-relevant sprint conn ("ab", pos 8) (set_difficulty (pos 5) ∷ []) (notify more ∷ [])
      clean refl refl (refl, tt)

resend_relevant_notifications-fits_example : resend_relevant_notifications conn ≡ (
    if leb (length conn.msg_ch + length (relevant_notifications conn)) channel_size
    then some
        (record conn { msg_ch = conn.msg_ch ++ relevant_notifications conn; is_reading = true })
    else none)
resend_relevant_notifications-fits_example = resend_relevant_notifications-fits conn

abbrev cached : ConnPool
cached = record { pool = ("pool", conn) ∷ []; conn = some "elsewhere" }

remove_listener-then_share_panics_example :
    let (s', handle) = on_submit_listener new_miner_model "count" in
    let s'' = register_all s' ("log" ∷ "graph" ∷ []) in
    (removed : MinerModel) × (remove_listener s'' handle ≡ some removed)
    × (submit_result removed false ≡ none)
remove_listener-then_share_panics_example =
    remove_listener-then_share_panics new_miner_model "count" "log" ("graph" ∷ [])

connect_miner-is_done_example :
    let (s', replies, progress, unread) =
      connect_miner
        (λ body. some "mask")
        ("ab", pos 8)
        new_miner_model
        ((configure (pos 1) "version-rolling" ∷ subscribe (pos 2) ∷ [])
          ++ authorize (pos 3) "worker" ∷ []) in
    (progress ≡ is_done)
    × (unread ≡ [])
    × (s'.worker_name ≡ "worker")
    × (map reply_id replies
        ≡ request_ids (configure (pos 1) "version-rolling" ∷ subscribe (pos 2) ∷ []) ++ pos 3 ∷ [])
connect_miner-is_done_example =
    connect_miner-is_done (λ body. some "mask") ("ab", pos 8) new_miner_model
      (configure (pos 1) "version-rolling" ∷ subscribe (pos 2) ∷ []) [] (pos 3) "worker"
      (("mask", refl), (tt, tt))

abbrev relay : Relay
relay = record { model = new_miner_model; conn = conn; to_miner = []; to_pool = []; ended = false }

abbrev rounds : List Round
rounds =
    arrives (set_difficulty (pos 5)) ∷ to_pool_round (submit (pos 4) "worker") ∷ to_miner_round ∷ []

-- A line of no known message ends the relay.
unparsed_ends : (relay_rounds sprint relay (arrives unparsed ∷ to_miner_round ∷ [])).ended ≡ true
unfolding relay_rounds
unparsed_ends = refl

relay_rounds-in_order_example :
    let r' = relay_rounds sprint relay rounds in
    (r'.to_miner ++ r'.conn.msg_ch ≡ emitted sprint relay rounds)
    × (r'.ended ≡ false)
    × (r'.to_pool ≡ submit (pos 4) "user" ∷ [])
unfolding all_known known from_miner named
relay_rounds-in_order_example = relay_rounds-in_order sprint relay rounds refl refl refl
