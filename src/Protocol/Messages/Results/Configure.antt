-- ===== src/Protocol/Messages/Results/Configure.antt =====
-- protocol/stratumv1_message/mining_configure_result.go.
use hash_router.Common.{String, Bool, Option, none, some}
use hash_router.Common.Int.{ℤ}
use hash_router.Protocol.Messages.Results.Result.{MiningResult}
use hash_router.Float.{Float64}
use hash_router.Protocol.Messages.Json.{
  Json, str, null, end, field, obj, Codec, find, to_string, to_bool, to_int, of_int, read_members,
  of_raws, boolean, members, Any, other, to_any, of_any,
}

pub record MiningConfigureResult (f : Float64) : Type 0 where
  pub id : ℤ
  pub version_rolling : Bool
  pub version_rolling_mask : String
  pub error : Any f

module _ (f : Float64) (c : Codec f) where
  -- The members of `result` of a configure result
  unfoldable pub read_configure : Json → Option (Bool × String)
  unfolding members to_bool to_string
  read_configure j = elim (members j) [
    | none ↦ none
    | some m ↦ elim (to_bool (find m "version-rolling")) [
      | none ↦ none
      | some rolling ↦ elim (to_string (find m "version-rolling.mask")) [
        | none ↦ none
        | some mask ↦ some (rolling, mask)
      ]
    ]
  ]

  unfoldable pub parse_mining_configure_result : c.Raw → Option (MiningConfigureResult f)
  unfolding read_members to_int to_any read_configure
  parse_mining_configure_result raw = elim (read_members f c raw) [
    | none ↦ none
    | some m ↦ elim (to_int f c (find m "id")) [
      | none ↦ none
      | some id ↦ elim (read_configure (elim (find m "result") [ none ↦ null | some j ↦ j ])) [
        | none ↦ none
        | some r ↦ elim (to_any f c (find m "error")) [
          | none ↦ none
          | some error ↦
              some (record {
                id = id;
                version_rolling = r.0;
                version_rolling_mask = r.1;
                error = error;
              })
        ]
      ]
    ]
  ]

  -- No result is no text, which json.Unmarshal refuses. The error is a value of another type, kept.
  unfoldable pub to_mining_configure_result : MiningResult → Option (MiningConfigureResult f)
  unfolding read_configure of_raws
  to_mining_configure_result m = elim m.result [
    | none ↦ none
    | some j ↦ elim (read_configure j) [
      | none ↦ none
      | some r ↦ some (record {
        id = m.id;
        version_rolling = r.0;
        version_rolling_mask = r.1;
        error = other (of_raws m.error);
      })
    ]
  ]

  -- `SetID` of a configure result
  unfoldable pub set_configure_result_id : MiningConfigureResult f → ℤ → MiningConfigureResult f
  set_configure_result_id m id = record m { id = id }

  unfoldable pub serialize_mining_configure_result : MiningConfigureResult f → c.Raw
  unfolding of_int of_any
  serialize_mining_configure_result m = c.marshal (
      obj (
        field "id" (of_int f c m.id) (
          field "result"
            (obj (
              field "version-rolling" (boolean m.version_rolling)
                (field "version-rolling.mask" (str m.version_rolling_mask) end)))
            (field "error" (of_any f c m.error) end))))
