-- ===== src/Protocol/Messages/Absent.antt =====
-- protocol/stratumv1_message/mining_authorize.go and mining_submit.go: a request without parameters.
-- The router reads the worker name of an authorize (protocol/stratum_v1_miner_model.go, `Connect`) and
-- writes that of a submit (protocol/stratum_v1_pool_conn.go, `writeInterceptor`) without a test.
use hash_router.Common.{◌≡◌, arith, String, Bool, true, false, Option, none, some}
use hash_router.Float.{Float64}
use hash_router.Protocol.Messages.Json.{
  Json, arr, cons, Codec, find, to_pair, to_strings, read_members, items_strings,
}
use hash_router.Protocol.Messages.Requests.{
  MiningAuthorize, MiningSubmit, parse_request, parse_mining_authorize, parse_mining_submit,
  get_first, set_submit_worker_name,
}

-- `params` is an array.
unfoldable pub has_params : Option Json → Bool
has_params (some (arr l)) = true
has_params _ = false

-- `params` is an array with an element.
unfoldable pub has_first_param : Option Json → Bool
has_first_param (some (arr (cons j l))) = true
has_first_param _ = false

unfoldable pub is_some : {A : Type 0} → Option A → Bool
is_some none = false
is_some (some a) = true

module _ (f : Float64) (c : Codec f) where
  -- The `params` in the text of a message.
  unfoldable pub params_of : c.Raw → Option Json
  unfolding read_members find
  params_of raw = elim (read_members f c raw) [ none ↦ none | some m ↦ find m "params" ]

  -- The worker name of an authorize that is read can be taken just when its text has an array of
  -- parameters, however short; without one `GetWorkerName` panics.
  get_first-parse_mining_authorize :
      (raw : c.Raw) (m : MiningAuthorize)
      → parse_mining_authorize f c raw ≡ some m
      → is_some (get_first m) ≡ has_params (params_of raw)
  unfolding parse_mining_authorize parse_request params_of has_params is_some get_first to_pair
  get_first-parse_mining_authorize raw m e = ground arith

  -- The worker name of a submit that is read can be replaced just when its text has an array with at
  -- least one parameter; else `SetWorkerName` panics.
  pub set_submit_worker_name-parse_mining_submit :
      (raw : c.Raw) (m : MiningSubmit) (name : String)
      → parse_mining_submit f c raw ≡ some m
      → is_some (set_submit_worker_name m name) ≡ has_first_param (params_of raw)
  unfolding parse_mining_submit parse_request params_of has_first_param is_some
      set_submit_worker_name to_strings items_strings
  set_submit_worker_name-parse_mining_submit raw m name e = ground arith
