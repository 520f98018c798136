-- ===== src/Protocol/Messages/Requests.antt =====
-- protocol/stratumv1_message/: the requests that a miner sends, mining_subscribe.go, mining_authorize.go,
-- mining_submit.go, mining_multi_version.go, mining_configure.go and mining_unknown.go. Their structs
-- have the same members and differ in the type of `Params`. The getters and setters of a parameter
-- panic, `none`, where the parameters are not there. `Serialize` drops an error of json.Marshal.
use hash_router.Common.{ℕ, String, Option, none, some, List, [], ◌∷◌, get_elem?}
use hash_router.Common.Int.{ℤ}
use hash_router.Float.{Float64}
use hash_router.Protocol.Messages.Json.{
  Json, arr, null, end, field, obj, Codec, find, to_string, to_int, of_int, read_members,
  with_method, to_pair, of_pair, to_strings, of_strings, to_raws, of_raws, of_raw, item, cons, nil,
}

-- The struct of a request.
pub record Request (P : Type 0) : Type 0 where
  pub id : ℤ
  pub method : String
  pub params : P

abbrev pub MiningSubscribe : Type 0
MiningSubscribe = Request (Option (String × String))

abbrev pub MiningAuthorize : Type 0
MiningAuthorize = Request (Option (String × String))

-- worker_name, job_id, extranonce2, ntime, nonce and optional version_bits
abbrev pub MiningSubmit : Type 0
MiningSubmit = Request (Option (List String))

abbrev pub MiningMultiVersion : Type 0
MiningMultiVersion = Request (Option ℤ)

abbrev pub MiningConfigure : Type 0
MiningConfigure = Request (Option (List Json))

-- The raw parameters of any other request.
abbrev pub MiningUnknown : Type 0
MiningUnknown = Request (Option Json)

abbrev pub method_mining_subscribe : String
method_mining_subscribe = "mining.subscribe"

abbrev pub method_mining_authorize : String
method_mining_authorize = "mining.authorize"

abbrev pub method_mining_submit : String
method_mining_submit = "mining.submit"

abbrev pub method_mining_multi_version : String
method_mining_multi_version = "mining.multi_version"

abbrev pub method_mining_configure : String
method_mining_configure = "mining.configure"

-- `SetID` of each request
unfoldable pub set_id : {P : Type 0} → Request P → ℤ → Request P
set_id m id = record m { id = id }

-- `NewMiningSubscribe`, `NewMiningAuthorize` and `NewMiningMultiVersion`
unfoldable pub new_mining_subscribe : ℤ → String → String → MiningSubscribe
new_mining_subscribe id name subscription_id = record {
  id = id;
  method = method_mining_subscribe;
  params = some (name, subscription_id);
}

unfoldable pub new_mining_authorize : ℤ → String → String → MiningAuthorize
new_mining_authorize id miner_id password = record {
  id = id;
  method = method_mining_authorize;
  params = some (miner_id, password);
}

unfoldable pub new_mining_multi_version : ℤ → MiningMultiVersion
new_mining_multi_version version = record {
  id = ℤ.pos 0;
  method = method_mining_multi_version;
  params = some version;
}

-- `GetUseragent` and `SetUseragent` of a subscribe, `GetWorkerName` and `SetWorkerName` of an authorize
unfoldable pub get_first : Request (Option (String × String)) → Option String
get_first m = elim m.params [ none ↦ none | some p ↦ some p.0 ]

unfoldable pub set_first :
    Request (Option (String × String)) → String → Option (Request (Option (String × String)))
set_first m s = elim m.params [ none ↦ none | some p ↦ some (record m { params = some (s, p.1) }) ]

-- `GetWorkerNumber` and `SetWorkerNumber` of a subscribe, `GetPassword` and `SetPassword` of an authorize
unfoldable pub get_second : Request (Option (String × String)) → Option String
get_second m = elim m.params [ none ↦ none | some p ↦ some p.1 ]

unfoldable pub set_second :
    Request (Option (String × String)) → String → Option (Request (Option (String × String)))
set_second m s = elim m.params [ none ↦ none | some p ↦ some (record m { params = some (p.0, s) }) ]

-- Params[i] of a submit
unfoldable pub submit_param : MiningSubmit → ℕ → Option String
submit_param m i = elim m.params [ none ↦ none | some l ↦ get_elem? l i ]

-- `GetWorkerName`, `GetNtime` and `GetNonce` of a submit
unfoldable pub get_submit_worker_name : MiningSubmit → Option String
unfolding submit_param
get_submit_worker_name m = submit_param m 0

unfoldable pub get_ntime : MiningSubmit → Option String
unfolding submit_param
get_ntime m = submit_param m 3

unfoldable pub get_nonce : MiningSubmit → Option String
unfolding submit_param
get_nonce m = submit_param m 4

-- `SetWorkerName` of a submit
unfoldable pub set_submit_worker_name : MiningSubmit → String → Option MiningSubmit
set_submit_worker_name m name = elim m.params [
  | none ↦ none
  | some l ↦ elim l [ [] ↦ none | worker ∷ rest ↦ some (record m { params = some (name ∷ rest) }) ]
]

-- `GetVersion` and `SetVersion`
unfoldable pub get_version : MiningMultiVersion → Option ℤ
get_version m = m.params

unfoldable pub set_version : MiningMultiVersion → ℤ → Option MiningMultiVersion
set_version m version = elim m.params [
  | none ↦ none
  | some v ↦ some (record m { params = some version })
]

module _ (f : Float64) (c : Codec f) where
  -- A request from a text, with the reader of its parameters; `none` is an error of json.Unmarshal.
  unfoldable pub parse_request :
      {P : Type 0} → (Option Json → Option P) → c.Raw → Option (Request P)
  unfolding read_members to_int to_string
  parse_request to_params raw = elim (read_members f c raw) [
    | none ↦ none
    | some m ↦ elim (to_int f c (find m "id")) [
      | none ↦ none
      | some id ↦ elim (to_string (find m "method")) [
        | none ↦ none
        | some method ↦ elim (to_params (find m "params")) [
          | none ↦ none
          | some params ↦ some (record { id = id; method = method; params = params })
        ]
      ]
    ]
  ]

  unfoldable pub serialize_request : {P : Type 0} → (P → Json) → Request P → c.Raw
  unfolding of_int with_method
  serialize_request of_params m = c.marshal (
      obj (
        field "id" (of_int f c m.id)
          (with_method m.method (field "params" (of_params m.params) end))))

  -- *[1]int
  unfoldable pub to_single_int : Option Json → Option (Option ℤ)
  unfolding to_int item
  to_single_int none = some none
  to_single_int (some null) = some none
  to_single_int (some (arr l)) = elim (to_int f c (item l)) [ none ↦ none | some i ↦ some (some i) ]
  to_single_int (some _) = none

  unfoldable pub of_single_int : Option ℤ → Json
  unfolding of_int
  of_single_int none = null
  of_single_int (some i) = arr (cons (of_int f c i) nil)

  unfoldable pub parse_mining_subscribe : c.Raw → Option MiningSubscribe
  unfolding parse_request to_pair
  parse_mining_subscribe raw = parse_request to_pair raw

  unfoldable pub serialize_mining_subscribe : MiningSubscribe → c.Raw
  unfolding serialize_request of_pair
  serialize_mining_subscribe m = serialize_request of_pair m

  unfoldable pub parse_mining_authorize : c.Raw → Option MiningAuthorize
  unfolding parse_request to_pair
  parse_mining_authorize raw = parse_request to_pair raw

  unfoldable pub serialize_mining_authorize : MiningAuthorize → c.Raw
  unfolding serialize_request of_pair
  serialize_mining_authorize m = serialize_request of_pair m

  unfoldable pub parse_mining_submit : c.Raw → Option MiningSubmit
  unfolding parse_request to_strings
  parse_mining_submit raw = parse_request to_strings raw

  unfoldable pub serialize_mining_submit : MiningSubmit → c.Raw
  unfolding serialize_request of_strings
  serialize_mining_submit m = serialize_request of_strings m

  unfoldable pub parse_mining_multi_version : c.Raw → Option MiningMultiVersion
  unfolding parse_request to_single_int
  parse_mining_multi_version raw = parse_request to_single_int raw

  unfoldable pub serialize_mining_multi_version : MiningMultiVersion → c.Raw
  unfolding serialize_request of_single_int
  serialize_mining_multi_version m = serialize_request of_single_int m

  unfoldable pub parse_mining_configure : c.Raw → Option MiningConfigure
  unfolding parse_request to_raws
  parse_mining_configure raw = parse_request to_raws raw

  unfoldable pub serialize_mining_configure : MiningConfigure → c.Raw
  unfolding serialize_request of_raws
  serialize_mining_configure m = serialize_request of_raws m

  -- A raw member is taken as it is.
  unfoldable pub parse_mining_unknown : c.Raw → Option MiningUnknown
  unfolding parse_request
  parse_mining_unknown raw = parse_request (λ j. some j) raw

  unfoldable pub serialize_mining_unknown : MiningUnknown → c.Raw
  unfolding serialize_request of_raw
  serialize_mining_unknown m = serialize_request of_raw m
