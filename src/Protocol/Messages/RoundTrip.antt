-- ===== src/Protocol/Messages/RoundTrip.antt =====
-- protocol/stratumv1_message/: a message that is written is read back by the parser of its direction.
-- This file has what both directions use.
pub mod ToPool
pub mod Notices
pub mod FromPool
use hash_router.Common.{
  ◌≡◌, refl, sym, subst, ap, ◌∙◌, arith, eq_iff, String, Bool, true, false, Option, none, some,
  List, [], ◌∷◌, str_eq, if◌then◌else◌, Bool-cases, Option-cases, inl, inr,
}
use hash_router.Common.Int.{ℤ, pos}
use hash_router.Float.{Float64}
use hash_router.Protocol.Messages.Json.{
  Json, str, num, Items, arr, null, Fields, end, field, obj, Codec, IsCodec, find, equal_fold,
  to_string, to_int, of_int, read_members, with_method, members,
}
use hash_router.Protocol.Messages.Json.{
  nil, cons, to_pair, of_pair, to_strings, of_strings, string_items, items_strings, to_raws,
  of_raws, of_raw, list_items, items_list,
}
use hash_router.Protocol.Messages.Requests.{
  Request, parse_request, serialize_request, to_single_int, of_single_int, parse_mining_subscribe,
  parse_mining_authorize, parse_mining_submit, parse_mining_multi_version, parse_mining_configure,
  parse_mining_unknown, serialize_mining_subscribe, serialize_mining_authorize,
  serialize_mining_submit, serialize_mining_multi_version, serialize_mining_configure,
  serialize_mining_unknown, method_mining_subscribe, method_mining_authorize, method_mining_submit,
  method_mining_multi_version, method_mining_configure,
}
use hash_router.Protocol.Messages.Results.{MiningGeneric, parse_generic_message}
use hash_router.Protocol.Messages.Dispatch.{
  MessageToPool, subscribe, authorize, submit, multi_version, configure, unknown, map_some,
  parse_message_to_pool, parse_to_pool_as, serialize_to_pool,
}

pub find-with_method :
    (method : String) (rest : Fields)
    → find rest "method" ≡ none
    → to_string (find (with_method method rest) "method") ≡ some method
unfolding find with_method to_string
find-with_method method rest e = ground (arith, eq_iff method "")

-- The other keys are not the key of the method in any letter case.
pub id_differs : equal_fold "method" "id" ≡ false
unfolding equal_fold
id_differs = refl

pub params_differs : equal_fold "method" "params" ≡ false
unfolding equal_fold
params_differs = refl

pub result_differs : equal_fold "method" "result" ≡ false
unfolding equal_fold
result_differs = refl

pub error_differs : equal_fold "method" "error" ≡ false
unfolding equal_fold
error_differs = refl

same_option : (o : Option Json) → elim o [ some w ↦ some w | none ↦ none ] ≡ o
same_option none = refl
same_option (some w) = refl

-- A field under another key is passed over.
find-field_other :
    (j : String) (v : Json) (rest : Fields) (k : String)
    → equal_fold j k ≡ false
    → find (field j v rest) k ≡ find rest k
unfolding find equal_fold
find-field_other j v rest k e =
    subst
      (λ b.
        elim (find rest k) [ some w ↦ some w | none ↦ if b then some v else none ] ≡ find rest k)
      (sym e) (same_option (find rest k))

pub find-with_method_other :
    (method : String) (rest : Fields) (k : String)
    → equal_fold "method" k ≡ false
    → find (with_method method rest) k ≡ find rest k
unfolding find with_method
find-with_method_other method rest k e = elim (Bool-cases (str_eq method "")) [
  | inl unnamed ↦ rw (unnamed, with_method) refl
  | inr named ↦ rw (named, with_method) (find-field_other "method" (str method) rest k e)
]

items_list-list_items : (l : List Json) → items_list (list_items l) ≡ l
unfolding items_list list_items
items_list-list_items [] = refl
items_list-list_items (j ∷ l) = ap (λ r. j ∷ r) (items_list-list_items l)

pub to_raws-of_raws : (p : Option (List Json)) → to_raws (some (of_raws p)) ≡ some p
unfolding to_raws of_raws
to_raws-of_raws none = refl
to_raws-of_raws (some l) = ap (λ r. some (some r)) (items_list-list_items l)

module _ (f : Float64) (c : Codec f) (is_codec : IsCodec f c) where
  pub read_members-marshal : (m : Fields) → read_members f c (c.marshal (obj m)) ≡ some m
  unfolding read_members members
  read_members-marshal m = rw (read_members, is_codec.unmarshal-marshal (obj m)) refl

  pub to_int-of_int : (i : ℤ) → to_int f c (some (of_int f c i)) ≡ some i
  unfolding to_int of_int
  to_int-of_int i = is_codec.parse_int-format_int i
