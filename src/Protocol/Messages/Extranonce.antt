-- ===== src/Protocol/Messages/Extranonce.antt =====
-- protocol/stratumv1_message/: the extranonce of a subscription, from the answer that
-- protocol/stratum_v1_miner_model.go writes to a miner (`NewMiningSubscribeResult`) to the readers of
-- such an answer.
use hash_router.Common.{◌≡◌, refl, arith, String, Bool, false, Option, none, some}
use hash_router.Common.Int.{ℤ}
use hash_router.Float.{Float64}
use hash_router.Protocol.Messages.Json.{
  Json, str, num, arr, null, Fields, end, field, Codec, IsCodec, find, of_int, item, rest_items,
  cons, nil, to_any, of_any, to_raws,
}
use hash_router.Protocol.Messages.Notices.{parse_mining_set_extranonce, to_any_pair, get_extranonce}
use hash_router.Protocol.Messages.Results.{
  parse_mining_result, serialize_mining_subscribe_result, new_mining_subscribe_result,
  set_subscribe_result_id, parse_extranonce_subscribe_result, parse_mining_subscribe_result,
  read_triple, is_text, Extranonce, extranonce_of, is_error,
}
use hash_router.Protocol.Messages.RoundTrip.{read_members-marshal, to_int-of_int}

module _ (f : Float64) (c : Codec f) (is_codec : IsCodec f c) where
  -- The `result` in the text of an answer.
  abbrev answer_result : String → ℤ → Json
  answer_result extranonce size = arr (
      cons
        (arr (
          cons (arr (cons (str "mining.set_difficulty") (cons (str "") nil)))
            (cons (arr (cons (str "mining.notify") (cons (str "") nil))) nil)))
        (cons (str extranonce) (cons (num (c.format_int size)) nil)))

  abbrev answer_members : ℤ → String → ℤ → Fields
  answer_members id extranonce size =
      field "id" (of_int f c id)
        (field "result" (answer_result extranonce size) (field "error" null end))

  parse_mining_result-answer :
      (id : ℤ) (extranonce : String) (size : ℤ)
      → parse_mining_result f c (
          serialize_mining_subscribe_result f c
            (set_subscribe_result_id f c (new_mining_subscribe_result f c extranonce size) id))
        ≡ some (record { id = id; result = some (answer_result extranonce size); error = none })
  unfolding parse_mining_result serialize_mining_subscribe_result set_subscribe_result_id
      new_mining_subscribe_result find to_raws of_any
  parse_mining_result-answer id extranonce size = ground (
    arith,
    read_members-marshal f c is_codec (answer_members id extranonce size),
    to_int-of_int f c is_codec id,
  )

  -- What a router behind reads of an answer: its id, whether it is an error, and the extranonce.
  abbrev pub read_subscribe_answer : c.Raw → Option (ℤ × Bool × Extranonce f)
  read_subscribe_answer raw = elim (parse_mining_result f c raw) [
    | none ↦ none
    | some m ↦ some (m.id, is_error m, parse_extranonce_subscribe_result f c m)
  ]

  -- The answer that a router writes for a subscription is read by a router behind it under the same
  -- id, without an error, and gives the extranonce and the number that the size is read as.
  pub read_subscribe_answer-new_mining_subscribe_result :
      (id : ℤ) (extranonce : String) (size : ℤ) (x : f.Number)
      → c.parse_float (c.format_int size) ≡ some x
      → read_subscribe_answer (
          serialize_mining_subscribe_result f c
            (set_subscribe_result_id f c (new_mining_subscribe_result f c extranonce size) id))
        ≡ some (id, false, extranonce_of extranonce x)
  unfolding is_error parse_extranonce_subscribe_result read_triple to_any item rest_items
  read_subscribe_answer-new_mining_subscribe_result id extranonce size x e =
      rw (read_subscribe_answer, parse_mining_result-answer id extranonce size)
        (rw (parse_extranonce_subscribe_result, e) refl)

  -- `ParseMiningSubscribeResult` refuses every answer that `NewMiningSubscribeResult` makes: the size
  -- is not a string.
  pub parse_mining_subscribe_result-new_mining_subscribe_result :
      (id : ℤ) (extranonce : String) (size : ℤ)
      → parse_mining_subscribe_result f c (
          serialize_mining_subscribe_result f c
            (set_subscribe_result_id f c (new_mining_subscribe_result f c extranonce size) id))
        ≡ none
  unfolding parse_mining_subscribe_result serialize_mining_subscribe_result set_subscribe_result_id
      new_mining_subscribe_result find of_any is_text read_triple to_any item rest_items
  parse_mining_subscribe_result-new_mining_subscribe_result id extranonce size = ground (
    arith,
    read_members-marshal f c is_codec (answer_members id extranonce size),
    to_int-of_int f c is_codec id,
  )

-- The size that encoding/json reads is a float, which `GetExtranonce` takes for no int: on a
-- set_extranonce of a pool it panics whatever the text was.
pub get_extranonce-parse_mining_set_extranonce :
    (f : Float64) (c : Codec f) (raw : c.Raw)
    → elim (parse_mining_set_extranonce f c raw) [ none ↦ none | some m ↦ get_extranonce f c m ]
      ≡ none
unfolding parse_mining_set_extranonce to_any_pair to_any get_extranonce item rest_items
get_extranonce-parse_mining_set_extranonce f c raw = ground arith
