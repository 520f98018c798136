-- ===== src/Protocol/Messages/Notices/Notify.antt =====
-- protocol/stratumv1_message/mining_notify.go. A raw parameter is the value it holds, nil is `none`.
use hash_router.Common.{
  ℕ, suc, zero, String, Bool, false, Option, none, some, List, [], ◌∷◌, get_elem?,
}
use hash_router.Common.Int.{ℤ}
use hash_router.Float.{Float64}
use hash_router.Protocol.Messages.Json.{
  Json, str, Items, arr, null, end, field, obj, Codec, find, to_string, to_bool, to_int, of_int,
  read_members, of_raw, cons, nil, to_raws,
}

-- `ID` is nil for a null.
pub record MiningNotify : Type 0 where
  pub id : Option ℤ
  pub method : String
  -- job id, previous block hash, generation 1 and 2, merkle branch, version, nbits, ntime, clean jobs
  pub params : List (Option Json)

abbrev pub method_mining_notify : String
method_mining_notify = "mining.notify"

-- [n]json.RawMessage from an array: what it lacks is nil, and what it has more is dropped.
unfoldable pub raws_of_length : ℕ → Items → List (Option Json)
raws_of_length zero l = []
raws_of_length (suc n) nil = none ∷ raws_of_length n nil
raws_of_length (suc n) (cons j l) = some j ∷ raws_of_length n l

unfoldable pub items_of_raws : List (Option Json) → Items
unfolding of_raw
items_of_raws [] = nil
items_of_raws (r ∷ l) = cons (of_raw r) (items_of_raws l)

unfoldable pub to_notify_params : Option Json → Option (List (Option Json))
unfolding raws_of_length
to_notify_params none = some (raws_of_length 9 nil)
to_notify_params (some null) = some (raws_of_length 9 nil)
to_notify_params (some (arr l)) = some (raws_of_length 9 l)
to_notify_params (some _) = none

-- `GetJobID` is parameter 0, `GetPrevBlockHash` 1, `GetGen1` 2, `GetGen2` 3, `GetVersion` 5,
-- `GetNbits` 6 and `GetNtime` 7: the text of the value, quotes included, so the value itself here.
unfoldable pub notify_param : ℕ → MiningNotify → Option Json
notify_param i m = elim (get_elem? m.params i) [ none ↦ none | some r ↦ r ]

-- `GetMerkel`: an error leaves the empty list.
unfoldable pub get_merkel : MiningNotify → List Json
unfolding to_raws notify_param
get_merkel m = elim (notify_param 4 m) [
  | none ↦ []
  | some j ↦ elim (to_raws (some j)) [
    | none ↦ []
    | some merkel ↦ elim merkel [ none ↦ [] | some l ↦ l ]
  ]
]

-- An error leaves `false`.
unfoldable pub get_clean_jobs : MiningNotify → Bool
unfolding to_bool notify_param
get_clean_jobs m = elim (notify_param 8 m) [
  | none ↦ false
  | some j ↦ elim (to_bool (some j)) [ none ↦ false | some b ↦ b ]
]

module _ (f : Float64) (c : Codec f) where
  -- *int
  unfoldable pub to_optional_int : Option Json → Option (Option ℤ)
  unfolding to_int
  to_optional_int none = some none
  to_optional_int (some null) = some none
  to_optional_int (some j) = elim (to_int f c (some j)) [ none ↦ none | some i ↦ some (some i) ]

  unfoldable pub of_optional_int : Option ℤ → Json
  unfolding of_int
  of_optional_int none = null
  of_optional_int (some i) = of_int f c i

  unfoldable pub parse_mining_notify : c.Raw → Option MiningNotify
  unfolding read_members to_optional_int to_string to_notify_params
  parse_mining_notify raw = elim (read_members f c raw) [
    | none ↦ none
    | some m ↦ elim (to_optional_int (find m "id")) [
      | none ↦ none
      | some id ↦ elim (to_string (find m "method")) [
        | none ↦ none
        | some method ↦ elim (to_notify_params (find m "params")) [
          | none ↦ none
          | some params ↦ some (record { id = id; method = method; params = params })
        ]
      ]
    ]
  ]

  -- `method` is written even when it is empty.
  unfoldable pub serialize_mining_notify : MiningNotify → c.Raw
  unfolding of_optional_int items_of_raws
  serialize_mining_notify m = c.marshal (
      obj (
        field "id" (of_optional_int m.id)
          (field "method" (str m.method) (field "params" (arr (items_of_raws m.params)) end))))

  -- `Copy` of a notify
  unfoldable pub copy_mining_notify : MiningNotify → Option MiningNotify
  unfolding parse_mining_notify serialize_mining_notify
  copy_mining_notify m = parse_mining_notify (serialize_mining_notify m)
