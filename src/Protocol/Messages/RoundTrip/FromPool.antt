-- ===== src/Protocol/Messages/RoundTrip/FromPool.antt =====
-- protocol/stratumv1_message/mining.go, `ParseMessageFromPool`: what `Serialize` of a notice or of an
-- answer writes is read back.
use hash_router.Common.{
  ◌≡◌, refl, sym, ap, ◌∙◌, arith, String, true, false, none, some, Option-cases, inl, inr,
  if◌then◌else◌,
}
use hash_router.Float.{Float64}
use hash_router.Protocol.Messages.Json.{
  Json, num, arr, null, end, field, obj, Codec, IsCodec, with_method, nil, cons, of_raw, of_single,
}
use hash_router.Protocol.Messages.Notices.{
  MiningSetDifficulty, serialize_mining_notify, serialize_mining_set_difficulty,
  serialize_mining_set_extranonce, serialize_mining_set_version_mask, to_single_float, of_any_pair,
  method_mining_notify, method_mining_set_difficulty, method_mining_set_extranonce,
  method_mining_set_version_mask,
}
use hash_router.Protocol.Messages.Dispatch.{
  MessageFromPool, notify, difficulty, version_mask, extranonce, result, map_some,
  parse_message_from_pool, parse_from_pool_as, serialize_from_pool,
}
use hash_router.Protocol.Messages.RoundTrip.Notices.{
  all_present, is_plain, parse_mining_notify-serialize_mining_notify, parse_generic_message-marshal,
  parse_mining_set_version_mask-serialize_lem, parse_mining_set_extranonce-serialize_lem,
  parse_mining_result-serialize_mining_result, parse_generic_message-serialize_mining_notify,
  parse_generic_message-serialize_mining_result, parse_mining_set_difficulty-marshal,
  to_single_float-of_float,
}

-- A message that `Serialize` writes and that is read back: it has its method, a notify has all nine
-- parameters, a difficulty is finite, the values of a set_extranonce are not ints, an answer has a
-- result.
unfoldable pub IsReadable : (f : Float64) → Codec f → MessageFromPool f → Type 0
unfolding all_present is_plain
IsReadable f c (notify m) = (m.method ≡ method_mining_notify) × (all_present 9 m.params ≡ true)
IsReadable f c (difficulty m) =
    (m.method ≡ method_mining_set_difficulty)
    × (elim m.params [ none ↦ true | some d ↦ c.is_finite d ] ≡ true)
IsReadable f c (version_mask m) = m.method ≡ method_mining_set_version_mask
IsReadable f c (extranonce m) =
    (m.method ≡ method_mining_set_extranonce)
    × (elim m.params [ none ↦ true | some p ↦ if is_plain f c p.0 then is_plain f c p.1 else false ]
        ≡ true)
IsReadable f c (result m) = some (of_raw m.result) ≡ m.result

module _ (f : Float64) (c : Codec f) (is_codec : IsCodec f c) where
  -- A notice by its parser.
  parse_message_from_pool-marshal :
      (method : String) (j : Json)
      → parse_message_from_pool f c (c.marshal (obj (with_method method (field "params" j end))))
        ≡ parse_from_pool_as f c method none
            (c.marshal (obj (with_method method (field "params" j end))))
  unfolding parse_message_from_pool
  parse_message_from_pool-marshal method j =
      rw (parse_message_from_pool, parse_generic_message-marshal f c is_codec method j) refl

  -- A difficulty, once its parameters are read.
  parse_message_from_pool-difficulty :
      (m : MiningSetDifficulty f) (j : Json)
      → m.method ≡ method_mining_set_difficulty
      → to_single_float f c (some j) ≡ some m.params
      → parse_message_from_pool f c (c.marshal (obj (with_method m.method (field "params" j end))))
        ≡ some (difficulty m)
  unfolding parse_from_pool_as
  parse_message_from_pool-difficulty m j named e =
      parse_message_from_pool-marshal m.method j
      ∙ ap
          (λ s.
            parse_from_pool_as f c s none
              (c.marshal (obj (with_method m.method (field "params" j end)))))
          named
      ∙ ap (map_some difficulty)
          (parse_mining_set_difficulty-marshal f c is_codec m.method j m.params e)

  parse_message_from_pool-serialize_mining_set_difficulty :
      (m : MiningSetDifficulty f)
      → m.method ≡ method_mining_set_difficulty
      → elim m.params [ none ↦ true | some d ↦ c.is_finite d ] ≡ true
      → elim (serialize_mining_set_difficulty f c m) [
        | none ↦ none
        | some raw ↦ parse_message_from_pool f c raw
      ]
        ≡ some (difficulty m)
  unfolding serialize_mining_set_difficulty to_single_float
  parse_message_from_pool-serialize_mining_set_difficulty m named e = elim (Option-cases m.params) [
    | inl absent ↦
        ground
          (arith, parse_message_from_pool-difficulty m null named (sym (ap some absent)), absent)
    | inr (d, present) ↦ ground (
      arith,
      parse_message_from_pool-difficulty m (arr (cons (num (c.format_float d)) nil)) named,
      to_single_float-of_float f c is_codec d,
      present,
    )
  ]

  -- A notice or an answer of a pool that is readable is written as a text that ParseMessageFromPool
  -- reads back as the same message, for every codec that reads back what it writes.
  pub parse_message_from_pool-serialize_from_pool :
      (m : MessageFromPool f)
      → IsReadable f c m
      → elim (serialize_from_pool f c m) [
        | none ↦ none
        | some raw ↦ parse_message_from_pool f c raw
      ]
        ≡ some m
  unfolding parse_message_from_pool parse_from_pool_as serialize_from_pool IsReadable map_some
      serialize_mining_set_version_mask serialize_mining_set_extranonce
  parse_message_from_pool-serialize_from_pool (notify m) e =
      rw (parse_message_from_pool, parse_generic_message-serialize_mining_notify f c is_codec m)
        refl
      ∙ ap (λ s. parse_from_pool_as f c s none (serialize_mining_notify f c m)) e.0
      ∙ ap (map_some notify) (parse_mining_notify-serialize_mining_notify f c is_codec m e.1)
  parse_message_from_pool-serialize_from_pool (difficulty m) e =
      parse_message_from_pool-serialize_mining_set_difficulty m e.0 e.1
  parse_message_from_pool-serialize_from_pool (version_mask m) e =
      parse_message_from_pool-marshal m.method (of_single m.params)
      ∙ ap (λ s. parse_from_pool_as f c s none (serialize_mining_set_version_mask f c m)) e
      ∙ ap (map_some version_mask) (parse_mining_set_version_mask-serialize_lem f c is_codec m)
  parse_message_from_pool-serialize_from_pool (extranonce m) e =
      parse_message_from_pool-marshal m.method (of_any_pair f c m.params)
      ∙ ap (λ s. parse_from_pool_as f c s none (serialize_mining_set_extranonce f c m)) e.0
      ∙ ap (map_some extranonce) (parse_mining_set_extranonce-serialize_lem f c is_codec m e.1)
  parse_message_from_pool-serialize_from_pool (result m) e =
      rw (parse_message_from_pool, parse_generic_message-serialize_mining_result f c is_codec m)
        refl
      ∙ ap (map_some result) (parse_mining_result-serialize_mining_result f c is_codec m e)
