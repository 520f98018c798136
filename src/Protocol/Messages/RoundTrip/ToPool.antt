-- ===== src/Protocol/Messages/RoundTrip/ToPool.antt =====
-- protocol/stratumv1_message/mining.go, `ParseMessageToPool`: what `Serialize` of a request writes is
-- read back.
use hash_router.Common.{
  ◌≡◌, refl, ap, ◌∙◌, arith, String, false, Option, none, some, List, [], ◌∷◌, str_eq,
}
use hash_router.Common.Int.{ℤ}
use hash_router.Float.{Float64}
use hash_router.Protocol.Messages.Json.{
  Json, end, field, Codec, IsCodec, find, to_string, of_int, with_method,
}
use hash_router.Protocol.Messages.Json.{
  to_pair, of_pair, to_strings, of_strings, string_items, items_strings, to_raws, of_raws, of_raw,
}
use hash_router.Protocol.Messages.Requests.{
  Request, parse_request, serialize_request, to_single_int, of_single_int, parse_mining_subscribe,
  parse_mining_authorize, parse_mining_submit, parse_mining_multi_version, parse_mining_configure,
  parse_mining_unknown, serialize_mining_subscribe, serialize_mining_authorize,
  serialize_mining_submit, serialize_mining_multi_version, serialize_mining_configure,
  serialize_mining_unknown, method_mining_subscribe, method_mining_authorize, method_mining_submit,
  method_mining_multi_version, method_mining_configure,
}
use hash_router.Protocol.Messages.Results.{parse_generic_message}
use hash_router.Protocol.Messages.Dispatch.{
  MessageToPool, subscribe, authorize, submit, multi_version, configure, unknown, map_some,
  parse_message_to_pool, parse_to_pool_as, serialize_to_pool,
}
use hash_router.Protocol.Messages.RoundTrip.{
  find-with_method, find-with_method_other, error_differs, id_differs, params_differs,
  result_differs, to_raws-of_raws, read_members-marshal, to_int-of_int,
}

to_pair-of_pair : (p : Option (String × String)) → to_pair (some (of_pair p)) ≡ some p
unfolding to_pair of_pair to_string
to_pair-of_pair none = refl
to_pair-of_pair (some (s, t)) = refl

items_strings-string_items : (l : List String) → items_strings (string_items l) ≡ some l
unfolding items_strings string_items to_string
items_strings-string_items [] = refl
items_strings-string_items (s ∷ l) = rw (items_strings-string_items l) refl

to_strings-of_strings : (p : Option (List String)) → to_strings (some (of_strings p)) ≡ some p
unfolding to_strings of_strings
to_strings-of_strings none = refl
to_strings-of_strings (some l) = rw (to_strings, items_strings-string_items l) refl

-- A message has the method that its parser is chosen by. An unknown one has another method, and
-- parameters: without them it is written with a null, and read back as one.
unfoldable pub IsNamed : MessageToPool → Type 0
IsNamed (subscribe m) = m.method ≡ method_mining_subscribe
IsNamed (authorize m) = m.method ≡ method_mining_authorize
IsNamed (submit m) = m.method ≡ method_mining_submit
IsNamed (multi_version m) = m.method ≡ method_mining_multi_version
IsNamed (configure m) = m.method ≡ method_mining_configure
IsNamed (unknown m) =
    (str_eq m.method method_mining_subscribe ≡ false)
    × (str_eq m.method method_mining_authorize ≡ false)
    × (str_eq m.method method_mining_submit ≡ false)
    × (str_eq m.method method_mining_multi_version ≡ false)
    × (str_eq m.method method_mining_configure ≡ false)
    × (some (of_raw m.params) ≡ m.params)

module _ (f : Float64) (c : Codec f) (is_codec : IsCodec f c) where
  -- Any pair of reader and writer of the parameters.
  parse_request-serialize_request :
      {P : Type 0} (to_params : Option Json → Option P) (of_params : P → Json) (m : Request P)
      → to_params (some (of_params m.params)) ≡ some m.params
      → parse_request f c to_params (serialize_request f c of_params m) ≡ some m
  unfolding parse_request serialize_request find
  parse_request-serialize_request to_params of_params m e = ground (
    arith,
    read_members-marshal f c is_codec (
        field "id" (of_int f c m.id)
          (with_method m.method (field "params" (of_params m.params) end))),
    to_int-of_int f c is_codec m.id,
    e,
    find-with_method m.method (field "params" (of_params m.params) end) refl,
    find-with_method_other m.method (field "params" (of_params m.params) end) "id" id_differs,
    find-with_method_other m.method (field "params" (of_params m.params) end) "params"
        params_differs,
  )

  to_single_int-of_single_int :
      (p : Option ℤ) → to_single_int f c (some (of_single_int f c p)) ≡ some p
  unfolding to_single_int of_single_int
  to_single_int-of_single_int none = refl
  to_single_int-of_single_int (some i) = rw (to_int-of_int f c is_codec i) refl

  parse_generic_message-serialize_request :
      {P : Type 0} (of_params : P → Json) (m : Request P)
      → parse_generic_message f c (serialize_request f c of_params m)
        ≡ some (record { id = m.id; method = m.method; result = none; error = none })
  unfolding parse_generic_message serialize_request find
  parse_generic_message-serialize_request of_params m = ground (
    arith,
    read_members-marshal f c is_codec (
        field "id" (of_int f c m.id)
          (with_method m.method (field "params" (of_params m.params) end))),
    to_int-of_int f c is_codec m.id,
    find-with_method m.method (field "params" (of_params m.params) end) refl,
    find-with_method_other m.method (field "params" (of_params m.params) end) "id" id_differs,
    find-with_method_other m.method (field "params" (of_params m.params) end) "result"
        result_differs,
    find-with_method_other m.method (field "params" (of_params m.params) end) "error" error_differs,
  )

  -- The generic reader finds the method, by which the parser is chosen.
  parse_message_to_pool-serialize_request :
      {P : Type 0} (of_params : P → Json) (m : Request P)
      → parse_message_to_pool f c (serialize_request f c of_params m)
        ≡ parse_to_pool_as f c m.method (serialize_request f c of_params m)
  unfolding parse_message_to_pool
  parse_message_to_pool-serialize_request of_params m =
      rw (parse_message_to_pool, parse_generic_message-serialize_request of_params m) refl

  parse_to_pool_as-unknown :
      (method : String) (raw : c.Raw)
      → str_eq method method_mining_subscribe ≡ false
      → str_eq method method_mining_authorize ≡ false
      → str_eq method method_mining_submit ≡ false
      → str_eq method method_mining_multi_version ≡ false
      → str_eq method method_mining_configure ≡ false
      → parse_to_pool_as f c method raw ≡ map_some unknown (parse_mining_unknown f c raw)
  unfolding parse_to_pool_as
  parse_to_pool_as-unknown method raw e₁ e₂ e₃ e₄ e₅ = rw (e₁, e₂, e₃, e₄, e₅) refl

  -- A request of a miner that is named for its parser is written as a text that ParseMessageToPool
  -- reads back as the same request, for every codec that reads back what it writes.
  pub parse_message_to_pool-serialize_to_pool :
      (m : MessageToPool) → IsNamed m → parse_message_to_pool f c (serialize_to_pool f c m) ≡ some m
  unfolding parse_message_to_pool serialize_to_pool IsNamed parse_to_pool_as map_some
      parse_mining_subscribe parse_mining_authorize parse_mining_submit parse_mining_multi_version
      parse_mining_configure parse_mining_unknown serialize_mining_subscribe
      serialize_mining_authorize serialize_mining_submit serialize_mining_multi_version
      serialize_mining_configure serialize_mining_unknown
  parse_message_to_pool-serialize_to_pool (subscribe m) e =
      parse_message_to_pool-serialize_request of_pair m
      ∙ ap (λ s. parse_to_pool_as f c s (serialize_mining_subscribe f c m)) e
      ∙ ap (map_some subscribe)
          (parse_request-serialize_request to_pair of_pair m (to_pair-of_pair m.params))
  parse_message_to_pool-serialize_to_pool (authorize m) e =
      parse_message_to_pool-serialize_request of_pair m
      ∙ ap (λ s. parse_to_pool_as f c s (serialize_mining_authorize f c m)) e
      ∙ ap (map_some authorize)
          (parse_request-serialize_request to_pair of_pair m (to_pair-of_pair m.params))
  parse_message_to_pool-serialize_to_pool (submit m) e =
      parse_message_to_pool-serialize_request of_strings m
      ∙ ap (λ s. parse_to_pool_as f c s (serialize_mining_submit f c m)) e
      ∙ ap (map_some submit)
          (parse_request-serialize_request to_strings of_strings m (to_strings-of_strings m.params))
  parse_message_to_pool-serialize_to_pool (multi_version m) e =
      parse_message_to_pool-serialize_request (of_single_int f c) m
      ∙ ap (λ s. parse_to_pool_as f c s (serialize_mining_multi_version f c m)) e
      ∙ ap (map_some multi_version) (
          parse_request-serialize_request (to_single_int f c) (of_single_int f c) m
            (to_single_int-of_single_int m.params))
  parse_message_to_pool-serialize_to_pool (configure m) e =
      parse_message_to_pool-serialize_request of_raws m
      ∙ ap (λ s. parse_to_pool_as f c s (serialize_mining_configure f c m)) e
      ∙ ap (map_some configure)
          (parse_request-serialize_request to_raws of_raws m (to_raws-of_raws m.params))
  parse_message_to_pool-serialize_to_pool (unknown m) e =
      parse_message_to_pool-serialize_request of_raw m
      ∙ parse_to_pool_as-unknown m.method (serialize_mining_unknown f c m) e.0 e.1 e.2 e.3 e.4
      ∙ ap (map_some unknown) (parse_request-serialize_request (λ j. some j) of_raw m (ap some e.5))
