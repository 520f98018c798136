-- ===== src/Protocol/MinerConn.antt =====
-- protocol/stratum_v1_miner_conn.go, the connection of a miner, and the handshake `Connect` of
-- protocol/stratum_v1_miner_model.go on the lines that come and go over it.
pub mod Refines
use hash_router.Common.{true, String, Option, none, some, List, [], ◌∷◌, ◌++◌}
use hash_router.Common.Int.{ℤ, pos}
use hash_router.Float.{Float64}
use hash_router.Protocol.Messages.Json.{Codec, boolean}
use hash_router.Protocol.Messages.Requests.{Request, MiningConfigure, get_first}
use hash_router.Protocol.Messages.Results.{
  MiningResult, serialize_mining_result, MiningConfigureResult, to_mining_configure_result,
  set_configure_result_id, serialize_mining_configure_result, new_mining_subscribe_result,
  set_subscribe_result_id, serialize_mining_subscribe_result, set_result_id,
}
use hash_router.Protocol.Messages.Dispatch.{
  MessageToPool, subscribe, authorize, submit, multi_version, configure, unknown,
  parse_message_to_pool,
}
use hash_router.Protocol.MinerModel.{MinerModel, Progress, goes_on, is_done, is_refused}

-- What `ReadLine` gives: a line, or the first part of one that is longer than the buffer.
pub data Arrival (Raw : Type 0) : Type 0 where
  line : Raw → Arrival Raw
  too_long : Arrival Raw

-- What `Read` returns; `ended`: the connection has ended.
pub data ReadReply : Type 0 where
  received : MessageToPool → ReadReply
  line_too_long ended : ReadReply

-- ParseMiningResult of {"id":47,"result":true,"error":null}
abbrev pub authorized_result : MiningResult
authorized_result = record { id = pos 47; result = some (boolean true); error = none }

-- `answer` is the result of the pool to a configure request, `none` an error; the texts are those that
-- the model keeps of a request and of its result, and `extranonce` is that of the pool connection.
module _ (f : Float64) (c : Codec f) (answer : MiningConfigure → Option MiningResult)
    (request_text : MiningConfigure → String) (result_text : MiningConfigureResult f → String)
    (extranonce : String × ℤ) where
  -- `Read`, with what is still to come: a line that cannot be parsed is passed over, and one that does
  -- not fit the reader's buffer is an error.
  unfoldable pub read_message : List (Arrival c.Raw) → ReadReply × List (Arrival c.Raw)
  unfolding parse_message_to_pool
  read_message [] = (ended, [])
  read_message (too_long ∷ rest) = (line_too_long, rest)
  read_message (line raw ∷ rest) =
      let later = read_message rest in
      elim (parse_message_to_pool f c raw) [ none ↦ later | some m ↦ (received m, rest) ]

  -- A round of `Connect` on a message, with the lines that it writes; `none` is a panic.
  unfoldable pub connect_message :
      MinerModel → MessageToPool → Option (MinerModel × List c.Raw × Progress)
  unfolding to_mining_configure_result set_configure_result_id serialize_mining_configure_result
      new_mining_subscribe_result set_subscribe_result_id serialize_mining_subscribe_result
      get_first set_result_id serialize_mining_result
  connect_message s (configure m) =
      let asked : MinerModel = record s { configure_msg_req = some (request_text m) } in
      elim (answer m) [
        | none ↦ some (asked, [], is_refused)
        | some r ↦ elim (to_mining_configure_result f c r) [
          | none ↦ some (asked, [], is_refused)
          | some res ↦ some (
            record asked { configure_msg_res = some (result_text res) },
            serialize_mining_configure_result f c (set_configure_result_id f c res m.id) ∷ [],
            goes_on,
          )
        ]
      ]
  connect_message s (subscribe m) = some (
    s,
    serialize_mining_subscribe_result f c (
          set_subscribe_result_id f c (new_mining_subscribe_result f c extranonce.0 extranonce.1)
            m.id)
        ∷ [],
    goes_on,
  )
  connect_message s (authorize m) = elim (get_first m) [
    | none ↦ none
    | some worker ↦ some (
      record s { worker_name = worker },
      serialize_mining_result f c (set_result_id authorized_result m.id) ∷ [],
      is_done,
    )
  ]
  connect_message s (submit m) = some (s, [], goes_on)
  connect_message s (multi_version m) = some (s, [], goes_on)
  connect_message s (unknown m) = some (s, [], goes_on)

  -- `Connect` on the lines of a miner.
  unfoldable pub connect_lines :
      MinerModel → List c.Raw → Option (MinerModel × List c.Raw × Progress)
  unfolding parse_message_to_pool connect_message
  connect_lines s [] = some (s, [], goes_on)
  connect_lines s (raw ∷ rest) =
      let skipped = connect_lines s rest in
      elim (parse_message_to_pool f c raw) [
        | none ↦ skipped
        | some m ↦ elim (connect_message s m) [
          | none ↦ none
          | some x ↦
              let later = connect_lines x.0 rest in
              elim x.2 [
                | goes_on ↦ elim later [ none ↦ none | some y ↦ some (y.0, x.1 ++ y.1, y.2) ]
                | is_done ↦ some x
                | is_refused ↦ some x
              ]
        ]
      ]
