-- ===== src/Protocol/MinerModel.antt =====
-- protocol/stratum_v1_miner_model.go: a miner between its own connection and that of its pools. The
-- goroutines of `Run` pass messages on; what they do to the state of the model is below.
pub mod Listeners
pub mod Handshake
pub mod Relay
use hash_router.Common.{
  ℕ, zero, suc, ◌+◌, String, Bool, true, false, Option, none, some, List, [], ◌∷◌, ◌++◌, ltb,
  if◌then◌else◌, length, set, get_elem?, Result, ok, err,
}
use hash_router.Common.Int.{ℤ}
use hash_router.Protocol.PoolConn.{
  Message, set_difficulty, submit, PoolConn, count_share, register_result_handler,
}

pub record MinerModel : Type 0 where
  pub difficulty : ℤ
  -- the listeners by name, of which some are nil
  pub on_submit : List (Option String)
  pub configure_msg_req : Option String
  pub configure_msg_res : Option String
  pub worker_name : String

-- `NewStratumV1MinerModel`
abbrev pub new_miner_model : MinerModel
new_miner_model = record {
  difficulty = ℤ.pos 0;
  on_submit = [];
  configure_msg_req = none;
  configure_msg_res = none;
  worker_name = "";
}

-- What a miner sends before its work; `other` are the messages that `Connect` passes over.
pub data MinerMessage : Type 0 where
  configure : ℤ → String → MinerMessage
  subscribe : ℤ → MinerMessage
  authorize : ℤ → String → MinerMessage
  other : MinerMessage

-- What `Connect` writes to the miner, each with the ID of the request.
pub data MinerReply : Type 0 where
  configured : ℤ → String → MinerReply
  subscribed : ℤ → String → ℤ → MinerReply
  authorized : ℤ → MinerReply

-- Where the handshake is: it goes on, is done, or has failed since the pool refused.
pub data Progress : Type 0 where
  goes_on is_done is_refused : Progress

-- `pool_answer` is the result of the pool to a configure request, `none` an error, and `extranonce`
-- that of the pool connection. Writes to the miner are taken to succeed.
module _ (pool_answer : String → Option String) (extranonce : String × ℤ) where
  -- A round of `Connect`.
  unfoldable pub connect_step : MinerModel → MinerMessage → MinerModel × List MinerReply × Progress
  connect_step s (configure id body) =
      let asked : MinerModel = record s { configure_msg_req = some body } in
      elim (pool_answer body) [
        | none ↦ (asked, [], is_refused)
        | some answer ↦
            (record asked { configure_msg_res = some answer }, configured id answer ∷ [], goes_on)
      ]
  connect_step s (subscribe id) = (s, subscribed id extranonce.0 extranonce.1 ∷ [], goes_on)
  connect_step s (authorize id worker) =
      (record s { worker_name = worker }, authorized id ∷ [], is_done)
  connect_step s other = (s, [], goes_on)

  -- `Connect` on what the miner sends, with what it leaves unread.
  unfoldable pub connect_miner :
      MinerModel → List MinerMessage → MinerModel × List MinerReply × Progress × List MinerMessage
  unfolding connect_step
  connect_miner s [] = (s, [], goes_on, [])
  connect_miner s (m ∷ l) =
      let (s', replies, progress) = connect_step s m in
      let (s'', later, end, unread) = connect_miner s' l in
      elim progress [
        | goes_on ↦ (s'', replies ++ later, end, unread)
        | is_done ↦ (s', replies, is_done, l)
        | is_refused ↦ (s', replies, is_refused, l)
      ]

-- `poolInterceptor`
unfoldable pub pool_interceptor : MinerModel → Message → MinerModel
pool_interceptor s (set_difficulty d) = record s { difficulty = d }
pool_interceptor s m = s

-- `minerInterceptor`, on the pool connection in use.
unfoldable pub miner_interceptor : (ℤ → String) → PoolConn → Message → PoolConn
miner_interceptor sprint c (submit id worker) = register_result_handler sprint c id count_share
miner_interceptor sprint c m = c

-- The loop over the listeners; a call of a nil listener panics, `none`.
unfoldable pub call_listeners : List (Option String) → ℤ → Option (List (String × ℤ))
call_listeners [] d = some []
call_listeners (none ∷ l) d = none
call_listeners (some name ∷ l) d = elim (call_listeners l d) [
  | none ↦ none
  | some calls ↦ some ((name, d) ∷ calls)
]

-- The handler of a submit: the calls of the listeners, at the difficulty of that moment.
unfoldable pub submit_result : MinerModel → Bool → Option (List (String × ℤ))
unfolding call_listeners
submit_result s is_error = if is_error then some [] else call_listeners s.on_submit s.difficulty

-- `OnSubmit`
unfoldable pub on_submit_listener : MinerModel → String → MinerModel × ℕ
on_submit_listener s cb =
    let listeners = s.on_submit ++ some cb ∷ [] in
    (record s { on_submit = listeners }, length listeners)

-- `RemoveListener`; `none`: the index is out of range
unfoldable pub remove_listener : MinerModel → ℕ → Option MinerModel
remove_listener s h =
    if ltb h (length s.on_submit)
    then some (record s { on_submit = set s.on_submit h none })
    else none
