-- ===== src/Server/Connection.antt =====
-- miner/miner_controller.go and data/generic_collection.go: a connection of a miner, from its first
-- message to its end, and the collection of the miners in which it is meanwhile.
use hash_router.Common.{
  ◌≡◌, arith, eq_refl, ℕ, String, Bool, true, false, ◌&&◌, Option, none, some, List, [], ◌∷◌,
  if◌then◌else◌, str_eq,
}
use hash_router.Common.Dict.{Dict, get, put, delete, get-put, get-delete}
use hash_router.Float.{Float64}
use hash_router.Miner.Scheduler.{Scheduler, allocated, refused, blocked, allocate_miner}
use hash_router.Server.PeekJson.{peek_json}

-- Collection: `Load`, `Store` and `Delete` of the sync.Map by the id of an item
unfoldable pub load {ℓ} : {A : Type ℓ} → Dict A → String → Option A
load items id = get items id

unfoldable pub store {ℓ} : {A : Type ℓ} → (A → String) → Dict A → A → Dict A
store id_of items item = put items (id_of item) item

unfoldable pub delete_item {ℓ} : {A : Type ℓ} → Dict A → String → Dict A
delete_item items id = delete items id

-- What becomes of a connection. `served` has the collection while the scheduler runs.
pub data Served (f : Float64) : Type 0 where
  peek_failed close_failed invalid dest_failed : Served f
  served : Dict (Scheduler f) → Served f

module _ (f : Float64) where
  -- `HandleConnection`, with the collection after it. `contains` is strings.Contains of the lower-case
  -- message, `close_ok` that the connection closes without an error, `dest_ok` that the default
  -- destination connects. The last function is what others do to the collection while the scheduler
  -- runs.
  unfoldable pub handle_connection :
      (List ℕ → String → Bool)
      → ℕ
      → List ℕ
      → Bool
      → Bool
      → Scheduler f
      → (Dict (Scheduler f) → Dict (Scheduler f))
      → Dict (Scheduler f)
      → Dict (Scheduler f) × Served f
  unfolding peek_json store delete_item
  handle_connection contains size buffered close_ok dest_ok scheduler meanwhile collection =
      let running = store (λ m. m.id) collection scheduler in
      elim (peek_json size buffered) [
        | none ↦ (collection, if close_ok then peek_failed else close_failed)
        | some peeked ↦
            if contains peeked "id" && contains peeked "mining" && contains peeked "params"
            then if dest_ok
              then (delete_item (meanwhile running) scheduler.id, served running)
              else (collection, dest_failed)
            else (collection, if close_ok then invalid else close_failed)
      ]

  -- `ChangeDestAll` on the miners in the order of Range, with whether it waits in a blocked send. It
  -- stops at the first miner that refuses, and returns no error.
  unfoldable pub change_dest_all : String → List (Scheduler f) → List (Scheduler f) × Bool
  change_dest_all dest [] = ([], false)
  change_dest_all dest (m ∷ rest) =
      let (later, waits) = change_dest_all dest rest in
      let (m', reply) = allocate_miner f m "API_TEST" (f.const 1 1) dest in
      elim reply [
        | allocated split ↦ (m' ∷ later, waits)
        | refused e ↦ (m' ∷ rest, false)
        | blocked ↦ (m' ∷ rest, true)
      ]

  -- A miner is in the collection while its scheduler runs, under its id and with no other one changed,
  -- and is not in it afterwards.
  pub handle_connection-load :
      (contains : List ℕ → String → Bool) (size : ℕ) (buffered : List ℕ) (close_ok dest_ok : Bool)
      (scheduler : Scheduler f) (meanwhile : Dict (Scheduler f) → Dict (Scheduler f))
      (collection running : Dict (Scheduler f)) (j : String)
      → (handle_connection contains size buffered close_ok dest_ok scheduler meanwhile collection).1
        ≡ served running
      → (load running j ≡ (if str_eq scheduler.id j then some scheduler else load collection j))
        × (load
              (handle_connection contains size buffered close_ok dest_ok scheduler meanwhile
                collection).0
              scheduler.id
            ≡ none)
  unfolding handle_connection load store delete_item
  handle_connection-load contains size buffered close_ok dest_ok scheduler meanwhile collection
        running j e =
      let kept = meanwhile (store (λ m. m.id) collection scheduler) in
      ground (
        arith,
        e,
        get-put collection scheduler.id j scheduler,
        get-delete kept scheduler.id scheduler.id,
        eq_refl scheduler.id,
      )
