-- ===== src/Protocol/PoolConn.antt =====
-- protocol/stratum_v1_pool_conn.go: the connection to one pool. Reading and writing the network and
-- parsing a line are left out: a message that comes or goes is a value of `Message`.
pub mod Jobs
pub mod Replies
pub mod Resend
use hash_router.Common.{
  ℕ, zero, suc, ◌+◌, ◌%◌, ◌^◌, String, Bool, true, false, Option, none, some, List, [], ◌∷◌, ◌++◌,
  map, ltb, if◌then◌else◌, length, Result, ok, err,
}
use hash_router.Common.Int.{ℤ}
use hash_router.Common.Dict.{Dict, get, put, delete}

-- MiningNotify, of which the text stands for the job
pub record Notify : Type 0 where
  pub clean_jobs : Bool
  pub job : String

-- MiningResult; the text is the result or the error
pub record Reply : Type 0 where
  pub id : ℤ
  pub is_error : Bool
  pub text : String

-- The messages that the connection tells apart. `unparsed` is the nil that a line of no known
-- message leaves.
pub data Message : Type 0 where
  notify : Notify → Message
  set_difficulty : ℤ → Message
  set_extranonce : String → ℤ → Message
  reply : Reply → Message
  submit : ℤ → String → Message
  request : ℤ → String → Message
  unparsed : Message

-- The handlers of results that the program registers: that of `SendPoolRequestWait` hands the
-- result to the caller that waits, and that of a submit counts the share.
pub data Handler : Type 0 where
  wait_reply count_share : Handler

pub record PoolConn : Type 0 where
  pub dest : String
  pub username : String
  pub notify_msgs : List (Option Notify)
  pub set_diff_msg : Option ℤ
  pub extra_nonce_msg : Option (String × ℤ)
  pub configure_msg : Option String
  -- the channel, from its oldest message
  pub msg_ch : List Message
  pub is_reading : Bool
  pub last_request_id : ℕ
  pub res_handlers : Dict Handler

-- The capacity of the channel, and the length of the first slice of notify messages.
abbrev pub channel_size : ℕ
channel_size = 100

unfoldable pub no_messages : ℕ → List (Option Notify)
no_messages zero = []
no_messages (suc n) = none ∷ no_messages n

-- `NewStratumV1Pool`
unfoldable pub new_pool_conn : String → String → Option String → PoolConn
new_pool_conn dest username configure_msg = record {
  dest = dest;
  username = username;
  notify_msgs = no_messages 100;
  set_diff_msg = none;
  extra_nonce_msg = none;
  configure_msg = configure_msg;
  msg_ch = [];
  is_reading = false;
  last_request_id = 0;
  res_handlers = [];
}

-- `sendToReadCh`; `none`: the sender waits, as the channel is full
unfoldable pub send_to_read_ch : PoolConn → Message → Option PoolConn
send_to_read_ch s msg =
    if ltb (length s.msg_ch) channel_size
    then some (record s { msg_ch = s.msg_ch ++ msg ∷ [] })
    else none

-- `Read`; `none`: the reader waits, as the channel is empty
unfoldable pub read : PoolConn → Option (Message × PoolConn)
read s = elim s.msg_ch [ [] ↦ none | msg ∷ rest ↦ some (msg, record s { msg_ch = rest }) ]

-- `SendPoolRequestWait` up to its wait, in two steps: between them `run` can go on.
unfoldable pub send_request : PoolConn → String → PoolConn × ℕ × Message
send_request s body =
    let id = (s.last_request_id + 1) % 2 ^ 32 in
    (record s { last_request_id = id }, id, request (ℤ.pos id) body)

-- fmt.Sprint of an int
module _ (sprint : ℤ → String) where
  -- `RegisterResultHandler`
  unfoldable pub register_result_handler : PoolConn → ℤ → Handler → PoolConn
  register_result_handler s id handler = record s {
    res_handlers = put s.res_handlers (sprint id) handler;
  }

  -- `readInterceptor`, with the handler that it calls, if any. Both handlers of the program leave
  -- the message as it is: one returns it, and the other returns nil, which the interceptor skips.
  unfoldable pub read_interceptor : PoolConn → Message → PoolConn × Option Handler
  read_interceptor s (notify n) =
      let kept = if n.clean_jobs then [] else s.notify_msgs in
      (record s { notify_msgs = kept ++ some n ∷ [] }, none)
  read_interceptor s (set_difficulty d) = (record s { set_diff_msg = some d }, none)
  read_interceptor s (reply r) = (
    record s { res_handlers = delete s.res_handlers (sprint r.id) },
    get s.res_handlers (sprint r.id),
  )
  read_interceptor s m = (s, none)

  -- A round of `run` on the message of a line.
  unfoldable pub receive : PoolConn → Message → Option (PoolConn × Option Handler)
  unfolding read_interceptor send_to_read_ch
  receive s m =
      let (s', called) = read_interceptor s m in
      if s'.is_reading
      then elim (send_to_read_ch s' m) [ none ↦ none | some s'' ↦ some (s'', called) ]
      else some (s', called)

  -- Its second step.
  unfoldable pub await_reply : PoolConn → ℕ → PoolConn
  unfolding register_result_handler
  await_reply s id = register_result_handler s (ℤ.pos id) wait_reply

-- `writeInterceptor`
unfoldable pub write_interceptor : PoolConn → Message → Message
write_interceptor s (submit id worker_name) = submit id s.username
write_interceptor s m = m

-- The notify messages that are there.
unfoldable pub present : List (Option Notify) → List Notify
present [] = []
present (none ∷ l) = present l
present (some n ∷ l) = n ∷ present l

-- What `resendRelevantNotifications` sends, in order. The extranonce is nil until `Connect` sets it,
-- which it does before the first use.
unfoldable pub relevant_notifications : PoolConn → List Message
unfolding present
relevant_notifications s =
    let jobs : List Message = map notify (present s.notify_msgs) in
    let difficulty : List Message = elim s.set_diff_msg [
      | none ↦ jobs
      | some d ↦ set_difficulty d ∷ jobs
    ] in
    elim s.extra_nonce_msg [
      | none ↦ unparsed ∷ difficulty
      | some (extranonce, size) ↦ set_extranonce extranonce size ∷ difficulty
    ]

unfoldable pub send_all : PoolConn → List Message → Option PoolConn
unfolding send_to_read_ch
send_all s [] = some s
send_all s (m ∷ l) = elim (send_to_read_ch s m) [ none ↦ none | some s' ↦ send_all s' l ]

-- `ResendRelevantNotifications`; `none`: it waits for the reader with the reading put off
unfoldable pub resend_relevant_notifications : PoolConn → Option PoolConn
unfolding relevant_notifications send_all
resend_relevant_notifications s =
    let held : PoolConn = record s { is_reading = false } in
    elim (send_all held (relevant_notifications held)) [
      | none ↦ none
      | some s' ↦ some (record s' { is_reading = true })
    ]

-- Why `Connect` fails.
pub data ConnectError : Type 0 where
  configure_failed subscribe_failed authorize_failed : ConnectError

-- What the pool answers to the requests of `Connect`. The extranonce is that of
-- ParseExtranonceSubscribeResult.
pub record Answers : Type 0 where
  pub configure_ok : Bool
  pub subscribe_answer : Option (String × ℤ)
  pub authorize_ok : Bool

-- The requests of `Connect` after the first.
unfoldable pub subscribe_authorize : Answers → PoolConn → Result ConnectError PoolConn
subscribe_authorize answers m = elim answers.subscribe_answer [
  | none ↦ err subscribe_failed
  | some extranonce ↦
      if answers.authorize_ok
      then ok (record m {
        extra_nonce_msg = some extranonce;
        is_reading = true;
        last_request_id = (m.last_request_id + 2) % 2 ^ 32;
      })
      else err authorize_failed
]

-- `Connect`. The messages that come meanwhile are separate steps of `receive`.
unfoldable pub connect : Answers → PoolConn → Result ConnectError PoolConn
unfolding subscribe_authorize
connect answers m = elim m.configure_msg [
  | none ↦ subscribe_authorize answers m
  | some configure ↦
      if answers.configure_ok
      then subscribe_authorize answers
          (record m { last_request_id = (m.last_request_id + 1) % 2 ^ 32 })
      else err configure_failed
]
