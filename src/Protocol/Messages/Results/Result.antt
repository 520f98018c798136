-- ===== src/Protocol/Messages/Results/Result.antt =====
-- protocol/stratumv1_message/: mining_generic.go, the struct that is read first, and mining_result.go.
use hash_router.Common.{String, Bool, true, false, Option, none, some, List}
use hash_router.Common.Int.{ℤ}
use hash_router.Float.{Float64}
use hash_router.Protocol.Messages.Json.{
  Json, arr, null, end, field, obj, Codec, find, to_string, to_int, of_int, read_members, of_raw,
  to_raws, of_raws, item, rest_items, Any, nothing, text, whole, real, other, to_any,
}

-- A raw member is the value it holds; nil is `none`, and a null in the text is a value.
pub record MiningGeneric : Type 0 where
  pub id : ℤ
  pub method : String
  pub result : Option Json
  pub error : Option Json

pub record MiningResult : Type 0 where
  pub id : ℤ
  pub result : Option Json
  pub error : Option (List Json)

-- `SetID` of a result
unfoldable pub set_result_id : MiningResult → ℤ → MiningResult
set_result_id m id = record m { id = id }

unfoldable pub is_error : MiningResult → Bool
is_error m = elim m.error [ none ↦ false | some l ↦ true ]

module _ (f : Float64) (c : Codec f) where
  unfoldable pub parse_generic_message : c.Raw → Option MiningGeneric
  unfolding read_members to_int to_string
  parse_generic_message raw = elim (read_members f c raw) [
    | none ↦ none
    | some m ↦ elim (to_int f c (find m "id")) [
      | none ↦ none
      | some id ↦ elim (to_string (find m "method")) [
        | none ↦ none
        | some method ↦
            some (record {
              id = id;
              method = method;
              result = find m "result";
              error = find m "error";
            })
      ]
    ]
  ]

  unfoldable pub parse_mining_result : c.Raw → Option MiningResult
  unfolding read_members to_int to_raws
  parse_mining_result raw = elim (read_members f c raw) [
    | none ↦ none
    | some m ↦ elim (to_int f c (find m "id")) [
      | none ↦ none
      | some id ↦ elim (to_raws (find m "error")) [
        | none ↦ none
        | some error ↦ some (record { id = id; result = find m "result"; error = error })
      ]
    ]
  ]

  unfoldable pub serialize_mining_result : MiningResult → c.Raw
  unfolding of_int of_raw of_raws
  serialize_mining_result m = c.marshal (
      obj (
        field "id" (of_int f c m.id)
          (field "result" (of_raw m.result) (field "error" (of_raws m.error) end))))

  -- `Copy` of a result
  unfoldable pub copy_mining_result : MiningResult → Option MiningResult
  unfolding parse_mining_result serialize_mining_result
  copy_mining_result m = parse_mining_result (serialize_mining_result m)

  -- `GetError`: the text of the errors
  unfoldable pub get_error : MiningResult → c.Raw
  unfolding of_raws
  get_error m = c.marshal (of_raws m.error)

  -- The three values of a `result`; `none` is an error. No `result` is no text, an error too.
  unfoldable pub read_triple : Json → Option (Any f × Any f × Any f)
  unfolding to_any item rest_items
  read_triple null = some (nothing, nothing, nothing)
  read_triple (arr l) = elim (to_any f c (item l)) [
    | none ↦ none
    | some a ↦ elim (to_any f c (item (rest_items l))) [
      | none ↦ none
      | some b ↦ elim (to_any f c (item (rest_items (rest_items l)))) [
        | none ↦ none
        | some d ↦ some (a, b, d)
      ]
    ]
  ]
  read_triple _ = none

-- What `ParseExtranonceSubscribeResult` does.
pub data Extranonce (f : Float64) : Type 0 where
  refused : Extranonce f
  panicked : Extranonce f
  -- The size is int(..) of the number.
  extranonce_of : String → f.Number → Extranonce f

module _ (f : Float64) (c : Codec f) where
  -- data[1].(string), int(data[2].(float64))
  unfoldable pub parse_extranonce_subscribe_result : MiningResult → Extranonce f
  unfolding read_triple
  parse_extranonce_subscribe_result m = elim m.result [
    | none ↦ refused
    | some j ↦ elim (read_triple f c j) [
      | none ↦ refused
      | some values ↦ elim values.1 [
        | text s ↦ elim values.2 [
          | real x ↦ extranonce_of s x
          | nothing ↦ panicked
          | text t ↦ panicked
          | whole i ↦ panicked
          | other k ↦ panicked
        ]
        | nothing ↦ panicked
        | whole i ↦ panicked
        | real x ↦ panicked
        | other k ↦ panicked
      ]
    ]
  ]
