-- ===== src/Protocol/Messages/Notices/Settings.antt =====
-- protocol/stratumv1_message/: mining_set_difficulty.go, mining_set_extranonce.go and
-- mining_set_version_mask.go. A getter or setter of a parameter is `none` where it panics.
use hash_router.Common.{String, Option, none, some, if◌then◌else◌}
use hash_router.Common.Int.{ℤ}
use hash_router.Float.{Float64}
use hash_router.Protocol.Messages.Json.{
  Json, num, arr, null, end, field, obj, Codec, find, to_string, read_members, with_method, item,
  rest_items, cons, nil, to_single, of_single, Any, nothing, text, whole, real, other, to_any,
  of_any,
}

pub record MiningSetDifficulty (f : Float64) : Type 0 where
  pub method : String
  pub params : Option f.Number

pub record MiningSetExtranonce (f : Float64) : Type 0 where
  pub method : String
  pub params : Option (Any f × Any f)

pub record MiningSetVersionMask : Type 0 where
  pub method : String
  pub params : Option String

abbrev pub method_mining_set_difficulty : String
method_mining_set_difficulty = "mining.set_difficulty"

abbrev pub method_mining_set_extranonce : String
method_mining_set_extranonce = "mining.set_extranonce"

abbrev pub method_mining_set_version_mask : String
method_mining_set_version_mask = "mining.set_version_mask"

module _ (f : Float64) (c : Codec f) where
  unfoldable pub new_mining_set_difficulty : f.Number → MiningSetDifficulty f
  new_mining_set_difficulty difficulty = record {
    method = method_mining_set_difficulty;
    params = some difficulty;
  }

  unfoldable pub get_difficulty : MiningSetDifficulty f → Option f.Number
  get_difficulty m = m.params

  unfoldable pub set_difficulty : MiningSetDifficulty f → f.Number → Option (MiningSetDifficulty f)
  set_difficulty m difficulty = elim m.params [
    | none ↦ none
    | some d ↦ some (record m { params = some difficulty })
  ]

  -- `Copy` of a set_difficulty
  unfoldable pub copy_set_difficulty : MiningSetDifficulty f → Option (MiningSetDifficulty f)
  unfolding get_difficulty new_mining_set_difficulty
  copy_set_difficulty m = elim (get_difficulty m) [
    | none ↦ none
    | some d ↦ some (new_mining_set_difficulty d)
  ]

  unfoldable pub to_float : Option Json → Option f.Number
  to_float none = some (f.const 0 1)
  to_float (some null) = some (f.const 0 1)
  to_float (some (num s)) = c.parse_float s
  to_float (some _) = none

  -- *[1]float64
  unfoldable pub to_single_float : Option Json → Option (Option f.Number)
  unfolding to_float item
  to_single_float none = some none
  to_single_float (some null) = some none
  to_single_float (some (arr l)) = elim (to_float (item l)) [ none ↦ none | some x ↦ some (some x) ]
  to_single_float (some _) = none

  unfoldable pub parse_mining_set_difficulty : c.Raw → Option (MiningSetDifficulty f)
  unfolding read_members to_string to_single_float
  parse_mining_set_difficulty raw = elim (read_members f c raw) [
    | none ↦ none
    | some m ↦ elim (to_string (find m "method")) [
      | none ↦ none
      | some method ↦ elim (to_single_float (find m "params")) [
        | none ↦ none
        | some params ↦ some (record { method = method; params = params })
      ]
    ]
  ]

  -- json.Marshal refuses an infinite number or NaN: then there are no bytes.
  unfoldable pub serialize_mining_set_difficulty : MiningSetDifficulty f → Option c.Raw
  unfolding with_method
  serialize_mining_set_difficulty m = elim m.params [
    | none ↦ some (c.marshal (obj (with_method m.method (field "params" null end))))
    | some d ↦
        if c.is_finite d
        then some (
            c.marshal (
              obj (
                with_method m.method
                  (field "params" (arr (cons (num (c.format_float d)) nil)) end))))
        else none
  ]

  -- `NewMiningSetExtranonce` and `NewMiningSetExtranonceV2`
  unfoldable pub new_mining_set_extranonce : MiningSetExtranonce f
  new_mining_set_extranonce = record {
    method = method_mining_set_extranonce;
    params = some (nothing, nothing);
  }

  unfoldable pub new_mining_set_extranonce_v2 : String → ℤ → MiningSetExtranonce f
  new_mining_set_extranonce_v2 extranonce size = record {
    method = method_mining_set_extranonce;
    params = some (text extranonce, whole size);
  }

  -- m.Params[0].(string), m.Params[1].(int)
  unfoldable pub get_extranonce : MiningSetExtranonce f → Option (String × ℤ)
  get_extranonce m = elim m.params [
    | none ↦ none
    | some p ↦ elim p.0 [
      | text extranonce ↦ elim p.1 [
        | whole size ↦ some (extranonce, size)
        | nothing ↦ none
        | text s ↦ none
        | real x ↦ none
        | other j ↦ none
      ]
      | nothing ↦ none
      | whole i ↦ none
      | real x ↦ none
      | other j ↦ none
    ]
  ]

  unfoldable pub set_extranonce :
      MiningSetExtranonce f → String → ℤ → Option (MiningSetExtranonce f)
  set_extranonce m extranonce size = elim m.params [
    | none ↦ none
    | some p ↦ some (record m { params = some (text extranonce, whole size) })
  ]

  -- *[2]interface{}
  unfoldable pub to_any_pair : Option Json → Option (Option (Any f × Any f))
  unfolding to_any item rest_items
  to_any_pair none = some none
  to_any_pair (some null) = some none
  to_any_pair (some (arr l)) = elim (to_any f c (item l)) [
    | none ↦ none
    | some a ↦ elim (to_any f c (item (rest_items l))) [ none ↦ none | some b ↦ some (some (a, b)) ]
  ]
  to_any_pair (some _) = none

  unfoldable pub of_any_pair : Option (Any f × Any f) → Json
  unfolding of_any
  of_any_pair none = null
  of_any_pair (some (a, b)) = arr (cons (of_any f c a) (cons (of_any f c b) nil))

  unfoldable pub parse_mining_set_extranonce : c.Raw → Option (MiningSetExtranonce f)
  unfolding read_members to_string to_any_pair
  parse_mining_set_extranonce raw = elim (read_members f c raw) [
    | none ↦ none
    | some m ↦ elim (to_string (find m "method")) [
      | none ↦ none
      | some method ↦ elim (to_any_pair (find m "params")) [
        | none ↦ none
        | some params ↦ some (record { method = method; params = params })
      ]
    ]
  ]

  unfoldable pub serialize_mining_set_extranonce : MiningSetExtranonce f → c.Raw
  unfolding with_method of_any_pair
  serialize_mining_set_extranonce m =
      c.marshal (obj (with_method m.method (field "params" (of_any_pair m.params) end)))

  unfoldable pub new_mining_set_version_mask : MiningSetVersionMask
  new_mining_set_version_mask = record { method = method_mining_set_version_mask; params = some "" }

  unfoldable pub get_version_mask : MiningSetVersionMask → Option String
  get_version_mask m = m.params

  -- The size is not used.
  unfoldable pub set_version_mask : MiningSetVersionMask → String → ℤ → Option MiningSetVersionMask
  set_version_mask m version_mask size = elim m.params [
    | none ↦ none
    | some s ↦ some (record m { params = some version_mask })
  ]

  unfoldable pub parse_mining_set_version_mask : c.Raw → Option MiningSetVersionMask
  unfolding read_members to_string to_single
  parse_mining_set_version_mask raw = elim (read_members f c raw) [
    | none ↦ none
    | some m ↦ elim (to_string (find m "method")) [
      | none ↦ none
      | some method ↦ elim (to_single (find m "params")) [
        | none ↦ none
        | some params ↦ some (record { method = method; params = params })
      ]
    ]
  ]

  unfoldable pub serialize_mining_set_version_mask : MiningSetVersionMask → c.Raw
  unfolding with_method of_single
  serialize_mining_set_version_mask m =
      c.marshal (obj (with_method m.method (field "params" (of_single m.params) end)))
