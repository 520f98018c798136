-- ===== src/Protocol/Messages/Dispatch.antt =====
-- protocol/stratumv1_message/mining.go: `ParseMessageToPool` and `ParseMessageFromPool`, and the
-- messages they give. `none` is an error.
use hash_router.Common.{String, Option, none, some, str_eq, if◌then◌else◌}
use hash_router.Float.{Float64}
use hash_router.Protocol.Messages.Json.{Codec, Json}
use hash_router.Protocol.Messages.Requests.{
  MiningSubscribe, MiningAuthorize, MiningSubmit, MiningMultiVersion, MiningConfigure,
  MiningUnknown, parse_mining_subscribe, parse_mining_authorize, parse_mining_submit,
  parse_mining_multi_version, parse_mining_configure, parse_mining_unknown,
  serialize_mining_subscribe, serialize_mining_authorize, serialize_mining_submit,
  serialize_mining_multi_version, serialize_mining_configure, serialize_mining_unknown,
  method_mining_subscribe, method_mining_authorize, method_mining_submit,
  method_mining_multi_version, method_mining_configure,
}
use hash_router.Protocol.Messages.Notices.{
  MiningNotify, MiningSetDifficulty, MiningSetExtranonce, MiningSetVersionMask, parse_mining_notify,
  parse_mining_set_difficulty, parse_mining_set_extranonce, parse_mining_set_version_mask,
  serialize_mining_notify, serialize_mining_set_difficulty, serialize_mining_set_extranonce,
  serialize_mining_set_version_mask, method_mining_notify, method_mining_set_difficulty,
  method_mining_set_extranonce, method_mining_set_version_mask,
}
use hash_router.Protocol.Messages.Results.{
  MiningResult, parse_mining_result, serialize_mining_result, parse_generic_message,
}

-- MiningMessageToPool
pub data MessageToPool : Type 0 where
  subscribe : MiningSubscribe → MessageToPool
  authorize : MiningAuthorize → MessageToPool
  submit : MiningSubmit → MessageToPool
  multi_version : MiningMultiVersion → MessageToPool
  configure : MiningConfigure → MessageToPool
  unknown : MiningUnknown → MessageToPool

-- MiningMessageGeneric, as a pool sends it
pub data MessageFromPool (f : Float64) : Type 0 where
  notify : MiningNotify → MessageFromPool f
  difficulty : MiningSetDifficulty f → MessageFromPool f
  version_mask : MiningSetVersionMask → MessageFromPool f
  extranonce : MiningSetExtranonce f → MessageFromPool f
  result : MiningResult → MessageFromPool f

unfoldable pub map_some : {A B : Type 0} → (A → B) → Option A → Option B
map_some g none = none
map_some g (some a) = some (g a)

module _ (f : Float64) (c : Codec f) where
  -- The switch of `ParseMessageToPool`.
  unfoldable pub parse_to_pool_as : String → c.Raw → Option MessageToPool
  unfolding map_some parse_mining_subscribe parse_mining_authorize parse_mining_submit
      parse_mining_multi_version parse_mining_configure parse_mining_unknown
  parse_to_pool_as method raw =
      if str_eq method method_mining_subscribe
      then map_some subscribe (parse_mining_subscribe f c raw)
      else if str_eq method method_mining_authorize
      then map_some authorize (parse_mining_authorize f c raw)
      else if str_eq method method_mining_submit
      then map_some submit (parse_mining_submit f c raw)
      else if str_eq method method_mining_multi_version
      then map_some multi_version (parse_mining_multi_version f c raw)
      else if str_eq method method_mining_configure
      then map_some configure (parse_mining_configure f c raw)
      else map_some unknown (parse_mining_unknown f c raw)

  unfoldable pub parse_message_to_pool : c.Raw → Option MessageToPool
  unfolding parse_generic_message parse_to_pool_as
  parse_message_to_pool raw = elim (parse_generic_message f c raw) [
    | none ↦ none
    | some msg ↦ parse_to_pool_as msg.method raw
  ]

  -- `Serialize` of each message
  unfoldable pub serialize_to_pool : MessageToPool → c.Raw
  unfolding serialize_mining_subscribe serialize_mining_authorize serialize_mining_submit
      serialize_mining_multi_version serialize_mining_configure serialize_mining_unknown
  serialize_to_pool (subscribe m) = serialize_mining_subscribe f c m
  serialize_to_pool (authorize m) = serialize_mining_authorize f c m
  serialize_to_pool (submit m) = serialize_mining_submit f c m
  serialize_to_pool (multi_version m) = serialize_mining_multi_version f c m
  serialize_to_pool (configure m) = serialize_mining_configure f c m
  serialize_to_pool (unknown m) = serialize_mining_unknown f c m

  -- The tests of `ParseMessageFromPool`.
  unfoldable pub parse_from_pool_as : String → Option Json → c.Raw → Option (MessageFromPool f)
  unfolding map_some parse_mining_notify parse_mining_set_difficulty parse_mining_set_version_mask
      parse_mining_set_extranonce parse_mining_result
  parse_from_pool_as method msg_result raw =
      if str_eq method method_mining_notify
      then map_some notify (parse_mining_notify f c raw)
      else if str_eq method method_mining_set_difficulty
      then map_some difficulty (parse_mining_set_difficulty f c raw)
      else if str_eq method method_mining_set_version_mask
      then map_some version_mask (parse_mining_set_version_mask f c raw)
      else if str_eq method method_mining_set_extranonce
      then map_some extranonce (parse_mining_set_extranonce f c raw)
      else elim msg_result [ none ↦ none | some j ↦ map_some result (parse_mining_result f c raw) ]

  unfoldable pub parse_message_from_pool : c.Raw → Option (MessageFromPool f)
  unfolding parse_generic_message parse_from_pool_as
  parse_message_from_pool raw = elim (parse_generic_message f c raw) [
    | none ↦ none
    | some msg ↦ parse_from_pool_as msg.method msg.result raw
  ]

  unfoldable pub serialize_from_pool : MessageFromPool f → Option c.Raw
  unfolding serialize_mining_notify serialize_mining_set_difficulty
      serialize_mining_set_version_mask serialize_mining_set_extranonce serialize_mining_result
  serialize_from_pool (notify m) = some (serialize_mining_notify f c m)
  serialize_from_pool (difficulty m) = serialize_mining_set_difficulty f c m
  serialize_from_pool (version_mask m) = some (serialize_mining_set_version_mask f c m)
  serialize_from_pool (extranonce m) = some (serialize_mining_set_extranonce f c m)
  serialize_from_pool (result m) = some (serialize_mining_result f c m)
