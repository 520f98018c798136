-- ===== src/Protocol/ConnPool.antt =====
-- protocol/stratum_v1_pool_conn_pool.go: the pool connections of one miner, by destination. The
-- field `conn` points to one of the cached connections, so the model keeps its key.
pub mod Switch
use hash_router.Common.{
  ℕ, String, Bool, true, false, Option, none, some, List, [], ◌∷◌, str_eq, if◌then◌else◌, Result,
  ok, err,
}
use hash_router.Common.Int.{ℤ}
use hash_router.Common.Dict.{Dict, get, put}
use hash_router.Protocol.PoolConn.{
  PoolConn, new_pool_conn, ConnectError, Answers, connect, resend_relevant_notifications, Message,
  send_to_read_ch, relevant_notifications,
}
use hash_router.Protocol.PoolConn.Jobs.{intercept}

pub record ConnPool : Type 0 where
  pub pool : Dict PoolConn
  pub conn : Option String

-- `NewStratumV1PoolPool`
abbrev pub new_conn_pool : ConnPool
new_conn_pool = record { pool = []; conn = none }

-- What the network does in a call of `SetDest`: the messages are those that come while `Connect`
-- waits, other than its answers.
pub data Dial : Type 0 where
  dial_fails : Dial
  dials : Answers → List Message → Dial

pub data SetDestReply : Type 0 where
  unchanged reused dialed : SetDestReply
  -- the resending waits for the reader
  waits : SetDestReply
  dial_error : SetDestReply
  connect_error : ConnectError → SetDestReply

-- The messages that a sender has put into the channel when it is full.
unfoldable pub send_what_fits : PoolConn → List Message → PoolConn
unfolding send_to_read_ch
send_what_fits s [] = s
send_what_fits s (m ∷ l) = elim (send_to_read_ch s m) [ none ↦ s | some s' ↦ send_what_fits s' l ]

-- A connection while its resending waits.
unfoldable pub held_up : PoolConn → PoolConn
unfolding send_what_fits relevant_notifications
held_up c =
    let held : PoolConn = record c { is_reading = false } in
    send_what_fits held (relevant_notifications held)

-- The reuse of a cached connection: pointing to it, and then resending on it.
unfoldable pub use_conn : ConnPool → String → PoolConn → ConnPool × SetDestReply
unfolding held_up
use_conn p dest c = elim (resend_relevant_notifications c) [
  | none ↦ (record { pool = put p.pool dest (held_up c); conn = some dest }, waits)
  | some c' ↦ (record { pool = put p.pool dest c'; conn = some dest }, reused)
]

-- The end of dialling: resending on the new connection, pointing to it, and keeping it under its key.
unfoldable pub keep_conn : ConnPool → String → PoolConn → ConnPool × SetDestReply
keep_conn p dest c = elim (resend_relevant_notifications c) [
  | none ↦ (p, waits)
  | some c' ↦ (record { pool = put p.pool dest c'; conn = some dest }, dialed)
]

-- Whether the connection in use is to the destination.
abbrev pub is_current : ConnPool → String → Bool
is_current p dest = elim p.conn [ none ↦ false | some current ↦ str_eq current dest ]

-- `username` is that of the destination.
module _ (sprint : ℤ → String) (username : String → String) where
  -- The part of `SetDest` where no connection is cached.
  unfoldable pub dial : ConnPool → String → Option String → Dial → ConnPool × SetDestReply
  unfolding keep_conn
  dial p dest configure dial_fails = (p, dial_error)
  dial p dest configure (dials answers came) =
      elim (connect answers (new_pool_conn dest (username dest) configure)) [
        | err e ↦ (p, connect_error e)
        | ok c ↦ keep_conn p dest (intercept sprint c came)
      ]

  -- `SetDest`
  unfoldable pub set_dest : ConnPool → String → Option String → Dial → ConnPool × SetDestReply
  unfolding use_conn dial
  set_dest p dest configure net =
      let cached = get p.pool dest in
      if is_current p dest
      then (p, unchanged)
      else elim cached [ none ↦ dial p dest configure net | some c ↦ use_conn p dest c ]
