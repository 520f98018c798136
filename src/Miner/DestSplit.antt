-- ===== src/Miner/DestSplit.antt =====
-- miner/dest_split.go: the share of one miner's hash power that each destination gets. The struct
-- has one field besides its mutex, so its state is the list of splits. A destination is the text of
-- its URI, by which lib.Dest compares destinations.
pub mod Lookup
pub mod Totals
pub mod Within
use hash_router.Common.{
  ℕ, ◌+◌, ◌≡◌, String, Bool, true, false, ◌||◌, Option, none, some, List, [], ◌∷◌, ◌++◌, map,
  str_eq, if◌then◌else◌, Result, ok, err,
}
use hash_router.Float.{Float64}

pub record Split (f : Float64) : Type 0 where
  pub id : String
  pub percentage : f.Number
  pub dest : String

-- The two errors of `allocate`.
pub data AllocateError : Type 0 where
  out_of_range exceeds_one : AllocateError

module _ (f : Float64) where
  abbrev pub min_percentage : f.Number
  min_percentage = f.const 5 100

  abbrev pub DestSplit : Type 0
  DestSplit = List (Split f)

  pub new_dest_split : DestSplit
  new_dest_split = []

  -- The loop of `GetAllocated`, from the total so far.
  unfoldable pub sum_percentages : f.Number → DestSplit → f.Number
  sum_percentages total [] = total
  sum_percentages total (spl ∷ rest) = sum_percentages (f.add total spl.percentage) rest

  unfoldable pub get_allocated : DestSplit → f.Number
  get_allocated d = sum_percentages (f.const 0 1) d

  unfoldable pub get_unallocated : DestSplit → f.Number
  get_unallocated d = f.sub (f.const 1 1) (get_allocated d)

  unfoldable pub adjust_percentage : f.Number → f.Number
  adjust_percentage percentage =
      if f.lt percentage min_percentage
      then min_percentage
      else if f.lt (f.const 95 100) percentage
      then f.const 1 1
      else percentage

  -- `allocate`: the new split, and the splits after the call.
  unfoldable pub allocate_exact :
      DestSplit → String → f.Number → String → Result AllocateError (Split f × DestSplit)
  allocate_exact d id percentage dest =
      if f.lt (f.const 1 1) percentage || f.eq percentage (f.const 0 1)
      then err out_of_range
      else if f.lt (get_unallocated d) percentage
      then err exceeds_one
      else let new_split : Split f = record { id = id; percentage = percentage; dest = dest } in
        ok (new_split, new_split ∷ d)

  -- `Allocate`
  unfoldable pub allocate :
      DestSplit → String → f.Number → String → Result AllocateError (Split f × DestSplit)
  allocate d id percentage dest = allocate_exact d id (adjust_percentage percentage) dest

  -- A failed allocation is logged and changes nothing.
  abbrev pub after : DestSplit → Result AllocateError (Split f × DestSplit) → DestSplit
  after d (ok (spl, d')) = d'
  after d (err e) = d

  unfoldable pub allocate_remaining : DestSplit → String → String → DestSplit
  allocate_remaining d id dest =
      let remaining = get_unallocated d in
      if f.eq remaining (f.const 0 1) then d else after d (allocate_exact d id remaining dest)

  unfoldable pub increase_allocation : DestSplit → String → f.Number → DestSplit × Bool
  increase_allocation [] id percentage = ([], false)
  increase_allocation (item ∷ rest) id percentage =
      let (rest', found) = increase_allocation rest id percentage in
      if str_eq item.id id
      then (
        record { id = id; percentage = f.add item.percentage percentage; dest = item.dest } ∷ rest,
        true,
      )
      else (item ∷ rest', found)

  unfoldable pub get_by_id : DestSplit → String → Option (Split f)
  get_by_id [] id = none
  get_by_id (item ∷ rest) id = if str_eq item.id id then some item else get_by_id rest id

  unfoldable pub set_fraction_by_id : DestSplit → String → f.Number → DestSplit × Bool
  set_fraction_by_id [] id fraction = ([], false)
  set_fraction_by_id (item ∷ rest) id fraction =
      let (rest', found) = set_fraction_by_id rest id fraction in
      if str_eq item.id id
      then (record { id = id; percentage = fraction; dest = item.dest } ∷ rest, true)
      else (item ∷ rest', found)

  unfoldable pub remove_by_id : DestSplit → String → DestSplit × Bool
  remove_by_id [] id = ([], false)
  remove_by_id (item ∷ rest) id =
      let (rest', found) = remove_by_id rest id in
      if str_eq item.id id then (rest, true) else (item ∷ rest', found)

  -- `Iter`
  abbrev pub iter : DestSplit → List (Split f)
  iter d = d

  -- `Copy` leaves the field ID of each copied split at its zero value.
  unfoldable pub copy : DestSplit → DestSplit
  copy d = map (λ v. record { id = ""; percentage = v.percentage; dest = v.dest }) d
