-- ===== src/Protocol/MinerConn/Refines.antt =====
-- protocol/stratum_v1_miner_model.go: the handshake on the lines of a connection does what the handshake
-- on messages of Protocol/MinerModel.antt does.
use hash_router.Common.{
  map-append, ◌≡◌, arith, String, Option, none, some, List, [], ◌∷◌, map, Option-cases, inl, inr,
}
use hash_router.Common.Int.{ℤ}
use hash_router.Float.{Float64}
use hash_router.Protocol.Messages.Json.{Codec}
use hash_router.Protocol.Messages.Requests.{MiningConfigure, get_first}
use hash_router.Protocol.Messages.Results.{
  MiningResult, serialize_mining_result, MiningConfigureResult, to_mining_configure_result,
  set_configure_result_id, serialize_mining_configure_result, new_mining_subscribe_result,
  set_subscribe_result_id, serialize_mining_subscribe_result, set_result_id,
}
use hash_router.Protocol.Messages.Dispatch.{
  MessageToPool, subscribe, authorize, submit, multi_version, configure, unknown,
  parse_message_to_pool,
}
use hash_router.Protocol.MinerModel.{
  MinerModel, MinerMessage, MinerReply, configured, subscribed, authorized, Progress, connect_step,
  connect_miner,
}
use hash_router.Protocol.MinerConn.{connect_message, connect_lines, authorized_result}

module _ (f : Float64) (c : Codec f) (answer : MiningConfigure → Option MiningResult)
    (request_text : MiningConfigure → String) (result_text : MiningConfigureResult f → String)
    (extranonce : String × ℤ) where
  -- The message of the model; an authorize without parameters has none.
  unfoldable pub miner_message : MessageToPool → Option MinerMessage
  unfolding get_first
  miner_message (configure m) = some (MinerMessage.configure m.id (request_text m))
  miner_message (subscribe m) = some (MinerMessage.subscribe m.id)
  miner_message (authorize m) = elim (get_first m) [
    | none ↦ none
    | some worker ↦ some (MinerMessage.authorize m.id worker)
  ]
  miner_message (submit m) = some MinerMessage.other
  miner_message (multi_version m) = some MinerMessage.other
  miner_message (unknown m) = some MinerMessage.other

  -- The messages of the lines; a line that cannot be parsed has none.
  unfoldable pub miner_messages : List c.Raw → Option (List MinerMessage)
  unfolding miner_message parse_message_to_pool
  miner_messages [] = some []
  miner_messages (line ∷ rest) =
      let later = miner_messages rest in
      elim (parse_message_to_pool f c line) [
        | none ↦ later
        | some m ↦ elim (miner_message m) [
          | none ↦ none
          | some x ↦ elim later [ none ↦ none | some l ↦ some (x ∷ l) ]
        ]
      ]

  -- The text that the model has for the result of the pool to a request, if there is one.
  unfoldable pub result_text_of : MiningConfigure → Option String
  unfolding to_mining_configure_result
  result_text_of m = elim (answer m) [
    | none ↦ none
    | some r ↦ elim (to_mining_configure_result f c r) [
      | none ↦ none
      | some res ↦ some (result_text res)
    ]
  ]

  -- The pool of the model answers by texts, from which the results of the pool are found back.
  module _ (pool_answer : String → Option String) (of_result : String → MiningConfigureResult f)
      (agrees : (m : MiningConfigure) → pool_answer (request_text m) ≡ result_text_of m)
      (result_back : (m : MiningConfigure) (r : MiningResult) (res : MiningConfigureResult f)
        → answer m ≡ some r
        → to_mining_configure_result f c r ≡ some res
        → of_result (result_text res) ≡ res) where
    -- The line of a reply of the model.
    unfoldable pub reply_line : MinerReply → c.Raw
    reply_line (configured id text) =
        serialize_mining_configure_result f c (set_configure_result_id f c (of_result text) id)
    reply_line (subscribed id e size) =
        serialize_mining_subscribe_result f c
          (set_subscribe_result_id f c (new_mining_subscribe_result f c e size) id)
    reply_line (authorized id) = serialize_mining_result f c (set_result_id authorized_result id)

    connect_message-connect_step :
        (s : MinerModel) (m : MessageToPool) (x : MinerMessage)
        → miner_message m ≡ some x
        → connect_message f c answer request_text result_text extranonce s m
          ≡ some (
              let (s', replies, progress) = connect_step pool_answer extranonce s x in
              (s', map reply_line replies, progress))
    unfolding connect_message connect_step miner_message result_text_of reply_line
    connect_message-connect_step s (configure m) x e = elim (Option-cases (answer m)) [
      | inl refused ↦ ground (arith, e, agrees m, refused)
      | inr (r, given) ↦ elim (Option-cases (to_mining_configure_result f c r)) [
        | inl bad ↦ ground (arith, e, agrees m, given, bad)
        | inr (res, good) ↦ ground (arith, e, agrees m, given, good, result_back m r res given good)
      ]
    ]
    connect_message-connect_step s (subscribe m) x e = ground (arith, e)
    connect_message-connect_step s (authorize m) x e = ground (arith, e)
    connect_message-connect_step s (submit m) x e = ground (arith, e)
    connect_message-connect_step s (multi_version m) x e = ground (arith, e)
    connect_message-connect_step s (unknown m) x e = ground (arith, e)

    -- What is compared: the state, the lines written, and how far the handshake is.
    abbrev pub lines_of :
        MinerModel × List MinerReply × Progress × List MinerMessage
        → MinerModel × List c.Raw × Progress
    lines_of (s, replies, progress, unread) = (s, map reply_line replies, progress)

    -- On the lines of a miner in which every authorize has its parameters, the handshake ends in the state
    -- of the handshake on the messages of these lines, as far as that one, and writes the lines of its
    -- replies: each is parsed, answered and written as the model says, and lines that cannot be parsed
    -- are passed over.
    pub connect_lines-connect_miner :
        (s : MinerModel) (lines : List c.Raw) (ms : List MinerMessage)
        → miner_messages lines ≡ some ms
        → connect_lines f c answer request_text result_text extranonce s lines
          ≡ some (lines_of (connect_miner pool_answer extranonce s ms))
    unfolding connect_lines connect_miner miner_messages
    connect_lines-connect_miner s [] ms e = ground (arith, e)
    connect_lines-connect_miner s (line ∷ rest) ms e =
        elim (Option-cases (parse_message_to_pool f c line)) [
          | inl unparsed ↦ ground (arith, e, unparsed, connect_lines-connect_miner s rest ms)
          | inr (m, parsed) ↦ elim (Option-cases (miner_message m)) [
            | inl none_there ↦ ground (arith, e, parsed, none_there)
            | inr (x, there) ↦ elim (Option-cases (miner_messages rest)) [
              | inl none_later ↦ ground (arith, e, parsed, there, none_later)
              | inr (l, later) ↦
                  let s' = (connect_step pool_answer extranonce s x).0 in
                  ground (
                    arith,
                    e,
                    parsed,
                    there,
                    later,
                    connect_message-connect_step s m x there,
                    connect_lines-connect_miner s' rest l later,
                    map-append reply_line (connect_step pool_answer extranonce s x).1
                        (connect_miner pool_answer extranonce s' l).1,
                  )
            ]
          ]
        ]
