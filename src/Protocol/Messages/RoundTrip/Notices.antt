-- ===== src/Protocol/Messages/RoundTrip/Notices.antt =====
-- protocol/stratumv1_message/: each notice and answer of a pool, read back by its own parser and by
-- the first reader.
use hash_router.Common.{
  ◌≡◌, refl, ap, arith, ℕ, zero, suc, String, Bool, true, false, Option, none, some, List, [], ◌∷◌,
  if◌then◌else◌,
}
use hash_router.Common.Int.{ℤ, pos}
use hash_router.Float.{Float64}
use hash_router.Protocol.Messages.Json.{
  Json, str, num, arr, null, end, field, obj, boolean, Codec, IsCodec, find, to_string, to_int,
  of_int, with_method, nil, cons, of_raws, of_raw, to_single, of_single, Any, nothing, text, whole,
  real, other, to_any, of_any,
}
use hash_router.Protocol.Messages.Notices.{
  MiningNotify, MiningSetExtranonce, MiningSetVersionMask, parse_mining_notify,
  parse_mining_set_difficulty, parse_mining_set_extranonce, parse_mining_set_version_mask,
  serialize_mining_notify, serialize_mining_set_extranonce, serialize_mining_set_version_mask,
  to_notify_params, raws_of_length, items_of_raws, to_optional_int, of_optional_int,
  to_single_float, to_any_pair, of_any_pair,
}
use hash_router.Protocol.Messages.Results.{
  MiningResult, parse_mining_result, serialize_mining_result, parse_generic_message,
}
use hash_router.Protocol.Messages.RoundTrip.{
  find-with_method, find-with_method_other, error_differs, id_differs, params_differs,
  result_differs, to_raws-of_raws, read_members-marshal, to_int-of_int,
}

-- n parameters, each one there.
unfoldable pub all_present : ℕ → List (Option Json) → Bool
all_present zero [] = true
all_present zero (r ∷ l) = false
all_present (suc n) [] = false
all_present (suc n) (none ∷ l) = false
all_present (suc n) (some j ∷ l) = all_present n l

-- A value of an interface{} that encoding/json reads as it was: an int is read as a float.
unfoldable pub is_plain : (f : Float64) → Codec f → Any f → Bool
is_plain f c nothing = true
is_plain f c (text s) = true
is_plain f c (whole i) = false
is_plain f c (real x) = c.is_finite x
is_plain f c (other (boolean b)) = true
is_plain f c (other (arr l)) = true
is_plain f c (other (obj m)) = true
is_plain f c (other null) = false
is_plain f c (other (num s)) = false
is_plain f c (other (str s)) = false

raws_of_length-items_of_raws :
    (n : ℕ) (l : List (Option Json))
    → all_present n l ≡ true
    → raws_of_length n (items_of_raws l) ≡ l
unfolding raws_of_length items_of_raws all_present of_raw
raws_of_length-items_of_raws zero [] e = refl
raws_of_length-items_of_raws zero (r ∷ l) e = ground arith
raws_of_length-items_of_raws (suc n) [] e = ground arith
raws_of_length-items_of_raws (suc n) (none ∷ l) e = ground arith
raws_of_length-items_of_raws (suc n) (some j ∷ l) e =
    ap (λ r. some j ∷ r) (raws_of_length-items_of_raws n l e)

to_single-of_single : (p : Option String) → to_single (some (of_single p)) ≡ some p
unfolding to_single of_single to_string
to_single-of_single none = refl
to_single-of_single (some s) = refl

module _ (f : Float64) (c : Codec f) (is_codec : IsCodec f c) where
  to_optional_int-of_optional_int :
      (p : Option ℤ) → to_optional_int f c (some (of_optional_int f c p)) ≡ some p
  unfolding to_optional_int of_optional_int of_int to_int
  to_optional_int-of_optional_int none = refl
  to_optional_int-of_optional_int (some i) =
      rw (to_optional_int, is_codec.parse_int-format_int i) refl

  to_int-of_optional_int :
      (p : Option ℤ)
      → to_int f c (some (of_optional_int f c p)) ≡ some (elim p [ none ↦ pos 0 | some i ↦ i ])
  unfolding of_optional_int to_int
  to_int-of_optional_int none = refl
  to_int-of_optional_int (some i) = to_int-of_int f c is_codec i

  to_any-of_any : (a : Any f) → is_plain f c a ≡ true → to_any f c (some (of_any f c a)) ≡ some a
  unfolding to_any of_any is_plain
  to_any-of_any nothing e = refl
  to_any-of_any (text s) e = refl
  to_any-of_any (whole i) e = ground arith
  to_any-of_any (real x) e = rw (is_codec.parse_float-format_float x e) refl
  to_any-of_any (other (boolean b)) e = refl
  to_any-of_any (other (arr l)) e = refl
  to_any-of_any (other (obj m)) e = refl
  to_any-of_any (other null) e = ground arith
  to_any-of_any (other (num s)) e = ground arith
  to_any-of_any (other (str s)) e = ground arith

  pub parse_mining_notify-serialize_mining_notify :
      (m : MiningNotify)
      → all_present 9 m.params ≡ true
      → parse_mining_notify f c (serialize_mining_notify f c m) ≡ some m
  unfolding parse_mining_notify serialize_mining_notify find to_notify_params to_string
  parse_mining_notify-serialize_mining_notify m e = ground (
    arith,
    read_members-marshal f c is_codec (
        field "id" (of_optional_int f c m.id)
          (field "method" (str m.method) (field "params" (arr (items_of_raws m.params)) end))),
    to_optional_int-of_optional_int m.id,
    raws_of_length-items_of_raws 9 m.params e,
  )

  to_any_pair-of_any_pair :
      (p : Option (Any f × Any f))
      → elim p [ none ↦ true | some q ↦ if is_plain f c q.0 then is_plain f c q.1 else false ]
        ≡ true
      → to_any_pair f c (some (of_any_pair f c p)) ≡ some p
  unfolding to_any_pair of_any_pair
  to_any_pair-of_any_pair none e = refl
  to_any_pair-of_any_pair (some (a, b)) e = ground (arith, to_any-of_any a, to_any-of_any b)

  pub to_single_float-of_float :
      (x : f.Number)
      → c.is_finite x ≡ true
      → to_single_float f c (some (arr (cons (num (c.format_float x)) nil))) ≡ some (some x)
  unfolding to_single_float
  to_single_float-of_float x e = rw (to_single_float, is_codec.parse_float-format_float x e) refl

  -- A notice with `method` and `params`: what the first reader and the readers of its members find.
  pub parse_generic_message-marshal :
      (method : String) (j : Json)
      → parse_generic_message f c (c.marshal (obj (with_method method (field "params" j end))))
        ≡ some (record { id = pos 0; method = method; result = none; error = none })
  unfolding parse_generic_message find to_int
  parse_generic_message-marshal method j = ground (
    arith,
    read_members-marshal f c is_codec (with_method method (field "params" j end)),
    find-with_method method (field "params" j end) refl,
    find-with_method_other method (field "params" j end) "id" id_differs,
    find-with_method_other method (field "params" j end) "result" result_differs,
    find-with_method_other method (field "params" j end) "error" error_differs,
  )

  pub parse_mining_set_version_mask-serialize_lem :
      (m : MiningSetVersionMask)
      → parse_mining_set_version_mask f c (serialize_mining_set_version_mask f c m) ≡ some m
  unfolding parse_mining_set_version_mask serialize_mining_set_version_mask find
  parse_mining_set_version_mask-serialize_lem m = ground (
    arith,
    read_members-marshal f c is_codec
        (with_method m.method (field "params" (of_single m.params) end)),
    find-with_method m.method (field "params" (of_single m.params) end) refl,
    find-with_method_other m.method (field "params" (of_single m.params) end) "params"
        params_differs,
    to_single-of_single m.params,
  )

  pub parse_mining_set_extranonce-serialize_lem :
      (m : MiningSetExtranonce f)
      → elim m.params [
        | none ↦ true
        | some p ↦ if is_plain f c p.0 then is_plain f c p.1 else false
      ]
        ≡ true
      → parse_mining_set_extranonce f c (serialize_mining_set_extranonce f c m) ≡ some m
  unfolding parse_mining_set_extranonce serialize_mining_set_extranonce find
  parse_mining_set_extranonce-serialize_lem m e = ground (
    arith,
    read_members-marshal f c is_codec
        (with_method m.method (field "params" (of_any_pair f c m.params) end)),
    find-with_method m.method (field "params" (of_any_pair f c m.params) end) refl,
    find-with_method_other m.method (field "params" (of_any_pair f c m.params) end) "params"
        params_differs,
    to_any_pair-of_any_pair m.params e,
  )

  pub parse_mining_result-serialize_mining_result :
      (m : MiningResult)
      → some (of_raw m.result) ≡ m.result
      → parse_mining_result f c (serialize_mining_result f c m) ≡ some m
  unfolding parse_mining_result serialize_mining_result find
  parse_mining_result-serialize_mining_result m e = ground (
    arith,
    read_members-marshal f c is_codec (
        field "id" (of_int f c m.id)
          (field "result" (of_raw m.result) (field "error" (of_raws m.error) end))),
    to_int-of_int f c is_codec m.id,
    to_raws-of_raws m.error,
    e,
  )

  -- The first reader on a notify and on an answer.
  pub parse_generic_message-serialize_mining_notify :
      (m : MiningNotify)
      → parse_generic_message f c (serialize_mining_notify f c m)
        ≡ some (record {
          id = elim m.id [ none ↦ pos 0 | some i ↦ i ];
          method = m.method;
          result = none;
          error = none;
        })
  unfolding parse_generic_message serialize_mining_notify find to_string of_optional_int to_int
  parse_generic_message-serialize_mining_notify m = ground (
    arith,
    read_members-marshal f c is_codec (
        field "id" (of_optional_int f c m.id)
          (field "method" (str m.method) (field "params" (arr (items_of_raws m.params)) end))),
    to_int-of_optional_int m.id,
  )

  pub parse_generic_message-serialize_mining_result :
      (m : MiningResult)
      → parse_generic_message f c (serialize_mining_result f c m)
        ≡ some (record {
          id = m.id;
          method = "";
          result = some (of_raw m.result);
          error = some (of_raws m.error);
        })
  unfolding parse_generic_message serialize_mining_result find to_string
  parse_generic_message-serialize_mining_result m = ground (
    arith,
    read_members-marshal f c is_codec (
        field "id" (of_int f c m.id)
          (field "result" (of_raw m.result) (field "error" (of_raws m.error) end))),
    to_int-of_int f c is_codec m.id,
  )

  pub parse_mining_set_difficulty-marshal :
      (method : String) (j : Json) (p : Option f.Number)
      → to_single_float f c (some j) ≡ some p
      → parse_mining_set_difficulty f c
          (c.marshal (obj (with_method method (field "params" j end))))
        ≡ some (record { method = method; params = p })
  unfolding parse_mining_set_difficulty find
  parse_mining_set_difficulty-marshal method j p e = ground (
    arith,
    read_members-marshal f c is_codec (with_method method (field "params" j end)),
    find-with_method method (field "params" j end) refl,
    find-with_method_other method (field "params" j end) "params" params_differs,
    e,
  )
