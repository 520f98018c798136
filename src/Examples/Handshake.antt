-- ===== src/Examples/Handshake.antt =====
-- protocol/stratum_v1_miner_model.go, `Connect`, on the lines of a miner, with unary numbers.
use hash_router.Common.{◌≡◌, refl, arith, true, none, some, List, [], ◌∷◌}
use hash_router.Common.Int.{pos}
use hash_router.Float.Hundredths.{hundredths}
use hash_router.Protocol.Messages.Json.{
  Json, null, boolean, num, str, arr, obj, nil, cons, end, field, other, find, of_raws,
}
use hash_router.Protocol.Messages.Unary.{unary}
use hash_router.Protocol.Messages.Requests.{MiningConfigure, get_first}
use hash_router.Protocol.Messages.Results.{
  MiningResult, MiningConfigureResult, to_mining_configure_result,
}
use hash_router.Protocol.Messages.Dispatch.{parse_message_to_pool}
use hash_router.Protocol.MinerModel.{MinerMessage, new_miner_model, connect_miner}
use hash_router.Protocol.MinerConn.{connect_lines}
use hash_router.Protocol.MinerConn.Refines.{
  lines_of, miner_message, miner_messages, result_text_of, connect_lines-connect_miner,
}

abbrev configure_result : MiningResult
configure_result = record {
  id = pos 1;
  result = some (
      obj (
        field "version-rolling" (boolean true)
          (field "version-rolling.mask" (str "1fffe000") end)));
  error = none;
}

abbrev answered : MiningConfigureResult hundredths
answered = record {
  id = pos 1;
  version_rolling = true;
  version_rolling_mask = "1fffe000";
  error = other null;
}

configure_result_read : to_mining_configure_result hundredths unary configure_result ≡ some answered
unfolding to_mining_configure_result find of_raws
configure_result_read = refl

-- A configure, a line that is no message, a subscribe and an authorize, to a pool that has one answer.
abbrev lines : List Json
lines =
    obj (field "id" (num "11") (field "method" (str "mining.configure") end))
    ∷ num "1"
    ∷ obj (field "id" (num "1111") (field "method" (str "mining.subscribe") end))
    ∷ obj (
        field "id" (num "") (
          field "method" (str "mining.authorize")
            (field "params" (arr (cons (str "worker") (cons (str "x") nil))) end)))
    ∷ []

abbrev messages : List MinerMessage
messages =
    MinerMessage.configure (pos 1) "asked"
    ∷ MinerMessage.subscribe (pos 2)
    ∷ MinerMessage.authorize (pos 0) "worker"
    ∷ []

messages_read :
    miner_messages hundredths unary
      (λ m. some configure_result)
      (λ m. "asked")
      (λ r. "answered")
      ("ab", pos 8)
      lines
    ≡ some messages
unfolding miner_messages miner_message parse_message_to_pool find get_first
messages_read = refl

agreed :
    (m : MiningConfigure)
    → some "answered"
      ≡ result_text_of hundredths unary
          (λ q. some configure_result)
          (λ q. "asked")
          (λ r. "answered")
          ("ab", pos 8)
          m
unfolding result_text_of
agreed m = rw (result_text_of, configure_result_read) refl

back :
    (m : MiningConfigure) (r : MiningResult) (res : MiningConfigureResult hundredths)
    → some configure_result ≡ some r
    → to_mining_configure_result hundredths unary r ≡ some res
    → answered ≡ res
back m r res e given = ground (arith, e, given, configure_result_read)

connect_lines-connect_miner_example :
    connect_lines hundredths unary
      (λ m. some configure_result)
      (λ m. "asked")
      (λ r. "answered")
      ("ab", pos 8)
      new_miner_model
      lines
    ≡ some (
        lines_of hundredths unary
          (λ m. some configure_result)
          (λ m. "asked")
          (λ r. "answered")
          ("ab", pos 8)
          (λ t. some "answered")
          (λ t. answered)
          agreed
          back
          (connect_miner (λ t. some "answered") ("ab", pos 8) new_miner_model messages))
connect_lines-connect_miner_example =
    connect_lines-connect_miner hundredths unary (λ m. some configure_result) (λ m. "asked")
      (λ r. "answered") ("ab", pos 8) (λ t. some "answered") (λ t. answered) agreed back
      new_miner_model lines messages messages_read
