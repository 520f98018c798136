-- ===== src/Stores/Repository.antt =====
-- data/inMemoryRepository.go and data/inMemoryDataStore.go: the repository of one type, whose calls are
-- functions that the goroutine of `NewTransactionsChannel` runs one by one. The channels have no buffer.
use hash_router.Common.{
  ◌≡◌, refl, arith, eq_refl, String, Bool, true, false, none, some, List, [], ◌∷◌, map,
  if◌then◌else◌, str_eq,
}
use hash_router.Common.Dict.{Dict, get, put, get-put}

-- A model with its id; `is_t`: whether it is of the type of the repository.
pub record Model : Type 0 where
  pub id : String
  pub value : String
  pub is_t : Bool

-- `blocked`: the goroutine is in a send that nobody will receive.
pub record Repository : Type 0 where
  pub store : Dict Model
  pub blocked : Bool

-- What a call answers. `waits`: it never returns.
pub data Reply : Type 0 where
  found saved : Model → Reply
  missing wrong_type waits : Reply
  -- nil of `Query`, and the default of `Delete`
  nothing default : Reply

-- `NewInMemoryRepository`
unfoldable pub new_repository : Repository
new_repository = record { store = []; blocked = false }

-- `Get`. After it has sent the item the function goes on to send an error, for which the caller does
-- not wait any more.
unfoldable pub get_item : Repository → String → Repository × Reply
get_item repo id = if repo.blocked then (repo, waits) else elim (get repo.store id) [
  | none ↦ (repo, missing)
  | some item ↦
      if item.is_t then (record repo { blocked = true }, found item) else (repo, wrong_type)
]

-- `Update`
unfoldable pub update : Repository → Model → Repository × Reply
update repo payload =
    if repo.blocked
    then (repo, waits)
    else (record repo { store = put repo.store payload.id payload }, saved payload)

-- `Create`, with the id that interop.NewUniqueIdString gives.
unfoldable pub create : Repository → String → Model → Repository × Reply
unfolding update
create repo new_id payload = update repo (record payload { id = new_id })

-- `Save`
unfoldable pub save : Repository → String → Model → Repository × Reply
unfolding update create
save repo new_id payload =
    if str_eq payload.id "" then create repo new_id payload else update repo payload

-- `FindOne`
unfoldable pub find_one : Repository → Model → Repository × Reply
unfolding get_item
find_one repo payload = get_item repo payload.id

-- `Query`
unfoldable pub query : Repository → Model → Repository × Reply
query repo payload = (repo, nothing)

-- `Delete`
unfoldable pub delete_item : Repository → Model → Repository × Reply
delete_item repo payload = (repo, default)

-- The calls of a repository: `Save` comes with the new id.
pub data Call : Type 0 where
  call_get : String → Call
  call_find_one : Model → Call
  call_save : String → Model → Call
  call_query call_delete : Model → Call

unfoldable pub serve : Repository → Call → Repository × Reply
unfolding get_item find_one save query delete_item
serve repo (call_get id) = get_item repo id
serve repo (call_find_one payload) = find_one repo payload
serve repo (call_save new_id payload) = save repo new_id payload
serve repo (call_query payload) = query repo payload
serve repo (call_delete payload) = delete_item repo payload

-- The replies to calls, one after the other.
unfoldable pub serve_all : Repository → List Call → List Reply
unfolding serve
serve_all repo [] = []
serve_all repo (c ∷ cs) = let (repo', reply) = serve repo c in reply ∷ serve_all repo' cs

-- The reply to a call when the goroutine hangs: only those that do not need it return.
unfoldable pub when_blocked : Call → Reply
when_blocked (call_get id) = waits
when_blocked (call_find_one payload) = waits
when_blocked (call_save new_id payload) = waits
when_blocked (call_query payload) = nothing
when_blocked (call_delete payload) = default

serve-blocked :
    (repo : Repository) (c : Call) → repo.blocked ≡ true → serve repo c ≡ (repo, when_blocked c)
unfolding when_blocked query delete_item serve get_item find_one save create update
serve-blocked repo (call_get id) h = rw h refl
serve-blocked repo (call_find_one payload) h = ground (arith, h)
serve-blocked repo (call_save new_id payload) h = ground (arith, h)
serve-blocked repo (call_query payload) h = refl
serve-blocked repo (call_delete payload) h = refl

serve_all-blocked :
    (repo : Repository) (cs : List Call)
    → repo.blocked ≡ true
    → serve_all repo cs ≡ map when_blocked cs
unfolding serve_all
serve_all-blocked repo [] h = refl
serve_all-blocked repo (c ∷ cs) h =
    ground (arith, serve-blocked repo c h, serve_all-blocked repo cs h)

save-update :
    (repo : Repository) (payload : Model) (new_id : String)
    → repo.blocked ≡ false
    → str_eq payload.id "" ≡ false
    → save repo new_id payload
      ≡ (record repo { store = put repo.store payload.id payload }, saved payload)
unfolding save update
save-update repo payload new_id free named = ground (arith, free, named)

get_item-found :
    (repo : Repository) (payload : Model)
    → repo.blocked ≡ false
    → payload.is_t ≡ true
    → get repo.store payload.id ≡ some payload
    → get_item repo payload.id ≡ (record repo { blocked = true }, found payload)
unfolding get_item
get_item-found repo payload free typed there = ground (arith, free, typed, there)

-- What was saved under an ID is got back, and then the goroutine hangs: of the later calls every `Get`,
-- `FindOne` and `Save` waits for ever, and every `Query` and `Delete` returns nothing. The conditions
-- are that the goroutine did not hang before, and that the model is of the type of the repository.
pub serve_all-save :
    (repo : Repository) (payload : Model) (new_id : String) (later : List Call)
    → repo.blocked ≡ false
    → payload.is_t ≡ true
    → str_eq payload.id "" ≡ false
    → serve_all repo (call_save new_id payload ∷ call_get payload.id ∷ later)
      ≡ saved payload ∷ found payload ∷ map when_blocked later
unfolding serve_all serve save update get_item
serve_all-save repo payload new_id later free typed named =
    let stored : Repository = record repo { store = put repo.store payload.id payload } in
    let there : get stored.store payload.id ≡ some payload =
      ground (arith, get-put repo.store payload.id payload.id payload, eq_refl payload.id) in
    ground (
      arith,
      save-update repo payload new_id free named,
      get_item-found stored payload free typed there,
      serve_all-blocked (record stored { blocked = true }) later refl,
    )
