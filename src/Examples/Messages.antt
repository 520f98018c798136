-- ===== src/Examples/Messages.antt =====
-- protocol/stratumv1_message/ with unary numbers.
use hash_router.Common.{◌≡◌, refl, false, none, some, [], ◌∷◌}
use hash_router.Common.Int.{pos}
use hash_router.Float.Hundredths.{hundredths}
use hash_router.Protocol.Messages.Json.{Json, of_raw, find, null, num, str, obj, end, field}
use hash_router.Protocol.Messages.Unary.{unary, unary-IsCodec}
use hash_router.Protocol.Messages.Requests.{MiningSubmit, MiningAuthorize, get_nonce}
use hash_router.Protocol.Messages.Results.{
  MiningResult, extranonce_of, panicked, parse_extranonce_subscribe_result,
  new_mining_subscribe_result, set_subscribe_result_id, serialize_mining_subscribe_result,
}
use hash_router.Protocol.Messages.Dispatch.{
  submit, parse_message_to_pool, serialize_to_pool, result, parse_message_from_pool,
  serialize_from_pool,
}
use hash_router.Protocol.Messages.RoundTrip.ToPool.{
  IsNamed, parse_message_to_pool-serialize_to_pool,
}
use hash_router.Protocol.Messages.RoundTrip.FromPool.{
  IsReadable, parse_message_from_pool-serialize_from_pool,
}
use hash_router.Protocol.Messages.Extranonce.{
  read_subscribe_answer, read_subscribe_answer-new_mining_subscribe_result,
}

abbrev share : MiningSubmit
share = record {
  id = pos 4;
  method = "mining.submit";
  params = some ("worker" ∷ "job" ∷ "e2" ∷ "time" ∷ "nonce" ∷ []);
}

share_nonce : get_nonce share ≡ some "nonce"
unfolding get_nonce
share_nonce = refl

parse_message_to_pool-serialize_to_pool_example :
    parse_message_to_pool hundredths unary (serialize_to_pool hundredths unary (submit share))
    ≡ some (submit share)
unfolding IsNamed
parse_message_to_pool-serialize_to_pool_example =
    parse_message_to_pool-serialize_to_pool hundredths unary unary-IsCodec (submit share) refl

abbrev refusal : MiningResult
refusal = record {
  id = pos 7;
  result = some null;
  error = some (num "23" ∷ str "Too low difficulty" ∷ null ∷ []);
}

parse_message_from_pool-serialize_from_pool_example :
    elim (serialize_from_pool hundredths unary (result refusal)) [
      | none ↦ none
      | some raw ↦ parse_message_from_pool hundredths unary raw
    ]
    ≡ some (result refusal)
unfolding IsReadable of_raw
parse_message_from_pool-serialize_from_pool_example =
    parse_message_from_pool-serialize_from_pool hundredths unary unary-IsCodec (result refusal) refl

read_subscribe_answer-new_mining_subscribe_result_example :
    read_subscribe_answer hundredths unary unary-IsCodec (
      serialize_mining_subscribe_result hundredths unary (
        set_subscribe_result_id hundredths unary
          (new_mining_subscribe_result hundredths unary "06650601bd171b" (pos 8))
          (pos 3)))
    ≡ some (pos 3, false, extranonce_of "06650601bd171b" (pos 8))
read_subscribe_answer-new_mining_subscribe_result_example =
    read_subscribe_answer-new_mining_subscribe_result hundredths unary unary-IsCodec (pos 3)
      "06650601bd171b" (pos 8) (pos 8) refl

-- A pool that answers a subscription with a null and no error.
null_panics :
    parse_extranonce_subscribe_result hundredths unary
      (record { id = pos 1; result = some null; error = none })
    ≡ panicked
unfolding parse_extranonce_subscribe_result
null_panics = refl

abbrev bare_authorize : Json
bare_authorize = obj (field "id" null (field "method" (str "mining.authorize") end))

abbrev authorize_read : MiningAuthorize
authorize_read = record { id = pos 0; method = "mining.authorize"; params = none }

-- A key in capital letters is that of the member too.
find_capitals : find (field "PARAMS" (str "a") end) "params" ≡ some (str "a")
unfolding find
find_capitals = refl
