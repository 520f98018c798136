-- ===== src/Protocol/Messages/Results/Subscribe.antt =====
-- protocol/stratumv1_message/mining_subscribe_result.go.
use hash_router.Common.{String, Bool, true, false, Option, none, some, if◌then◌else◌}
use hash_router.Common.Int.{ℤ, pos}
use hash_router.Protocol.Messages.Results.Result.{read_triple}
use hash_router.Float.{Float64}
use hash_router.Protocol.Messages.Json.{
  str, arr, null, end, field, obj, Codec, find, to_int, of_int, read_members, cons, nil, Any,
  nothing, text, whole, real, other, to_any, of_any,
}

pub record MiningSubscribeResult (f : Float64) : Type 0 where
  pub id : ℤ
  pub subscriptions : Any f
  pub extranonce : Any f
  pub extranonce_size : Any f
  pub error : Any f

module _ (f : Float64) (c : Codec f) where
  unfoldable pub is_text : Any f → Bool
  is_text (text s) = true
  is_text _ = false

  unfoldable pub parse_mining_subscribe_result : c.Raw → Option (MiningSubscribeResult f)
  unfolding read_members to_int to_any read_triple is_text
  parse_mining_subscribe_result raw = elim (read_members f c raw) [
    | none ↦ none
    | some m ↦ elim (to_int f c (find m "id")) [
      | none ↦ none
      | some id ↦ elim (read_triple f c (elim (find m "result") [ none ↦ null | some j ↦ j ])) [
        | none ↦ none
        | some r ↦ elim (to_any f c (find m "error")) [
          | none ↦ none
          | some error ↦
              if is_text r.1
              then if is_text r.2
                then some (record {
                  id = id;
                  subscriptions = r.0;
                  extranonce = r.1;
                  extranonce_size = r.2;
                  error = error;
                })
                else none
              else none
        ]
      ]
    ]
  ]

  unfoldable pub new_mining_subscribe_result : String → ℤ → MiningSubscribeResult f
  new_mining_subscribe_result extranonce1 size = record {
    id = pos 0;
    subscriptions = other (
        arr (
          cons (arr (cons (str "mining.set_difficulty") (cons (str "") nil)))
            (cons (arr (cons (str "mining.notify") (cons (str "") nil))) nil)));
    extranonce = text extranonce1;
    extranonce_size = whole size;
    error = nothing;
  }

  -- `SetID` of a subscribe result
  unfoldable pub set_subscribe_result_id : MiningSubscribeResult f → ℤ → MiningSubscribeResult f
  set_subscribe_result_id m id = record m { id = id }

  -- m.Result[1].(string), m.Result[2].(int); `none` is a panic
  unfoldable pub get_subscribe_extranonce : MiningSubscribeResult f → Option (String × ℤ)
  get_subscribe_extranonce m = elim m.extranonce [
    | text s ↦ elim m.extranonce_size [
      | whole size ↦ some (s, size)
      | nothing ↦ none
      | text t ↦ none
      | real x ↦ none
      | other j ↦ none
    ]
    | nothing ↦ none
    | whole i ↦ none
    | real x ↦ none
    | other j ↦ none
  ]

  unfoldable pub serialize_mining_subscribe_result : MiningSubscribeResult f → c.Raw
  unfolding of_int of_any
  serialize_mining_subscribe_result m = c.marshal (
      obj (
        field "id" (of_int f c m.id) (
          field "result"
            (arr (
              cons (of_any f c m.subscriptions)
                (cons (of_any f c m.extranonce) (cons (of_any f c m.extranonce_size) nil))))
            (field "error" (of_any f c m.error) end))))
