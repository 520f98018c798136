-- ===== src/Miner/Scheduler.antt =====
-- miner/on_demand_miner_scheduler.go and miner/miner_status.go: one miner's hash power over its
-- destinations. Of the miner model the scheduler reads the values below; they and the clock are
-- fields of its state.
pub mod Deallocate
pub mod Once
pub mod Cycle
pub mod Visits
pub mod Answers
use hash_router.Common.{
  ℕ, zero, suc, ◌+◌, ◌-◌, ◌<◌, ◌≡◌, String, Bool, true, false, not, Option, none, some, List, [],
  ◌∷◌, ◌++◌, str_eq, ltb, leb, ◌==◌, if◌then◌else◌, length, get_or, take, drop, Result, ok, err,
}
use hash_router.Common.Int.{ℤ, pos, ◌+ℤ◌, ◌-ℤ◌, ltb_ℤ}
use hash_router.Float.{Float64}
use hash_router.Miner.DestSplit.{
  Split, AllocateError, DestSplit, get_unallocated, allocate, allocate_remaining, copy, iter,
}

-- MinerStatus
pub data MinerStatus : Type 0 where
  vetting free busy : MinerStatus

abbrev pub default_dest_id : String
default_dest_id = "default-dest"

pub record Scheduler (f : Float64) : Type 0 where
  pub id : String
  pub dest_split : DestSplit f
  pub default_dest : String
  -- the destination that the miner model is connected to, and its hash rate
  pub current_dest : String
  pub hashrate_ghs : ℤ
  -- times and durations in nanoseconds
  pub connected_at : ℤ
  pub last_dest_change_at : ℤ
  pub miner_vetting_period : ℤ
  pub dest_min_uptime : ℤ
  pub dest_max_uptime : ℤ
  -- whether the buffer of one of the channel restartDestCycle is full
  pub restart_dest_cycle : Bool

-- `Allocate` blocks where it sends on a full channel, having already changed the splits.
pub data AllocateReply (f : Float64) : Type 0 where
  allocated : Split f → AllocateReply f
  refused : AllocateError → AllocateReply f
  blocked : AllocateReply f

-- `Deallocate` panics where it slices beyond the end of the splits.
pub data DeallocateReply : Type 0 where
  done : Bool → DeallocateReply
  panic : DeallocateReply

module _ (f : Float64) where
  unfoldable pub get_cycle_duration : Scheduler f → ℤ
  get_cycle_duration m = m.dest_min_uptime +ℤ m.dest_max_uptime

  unfoldable pub get_unallocated_percentage : Scheduler f → f.Number
  get_unallocated_percentage m = get_unallocated f m.dest_split

  unfoldable pub get_unallocated_hashrate_ghs : Scheduler f → ℤ
  get_unallocated_hashrate_ghs m =
      f.to_int (f.mul (get_unallocated f m.dest_split) (f.of_int m.hashrate_ghs))

  -- The send on restartDestCycle, after a successful allocation.
  abbrev restart : Scheduler f → Split f → Bool → Scheduler f × AllocateReply f
  restart m split false = (m, allocated split)
  restart m split true =
      if m.restart_dest_cycle
      then (m, blocked)
      else (record m { restart_dest_cycle = true }, allocated split)

  abbrev allocate_reply :
      Scheduler f → Result AllocateError (Split f × DestSplit f) → Scheduler f × AllocateReply f
  allocate_reply m (err e) = (m, refused e)
  allocate_reply m (ok (split, d)) =
      restart (record m { dest_split = d }) split (length (copy f m.dest_split) == 0)

  -- `Allocate`
  unfoldable pub allocate_miner :
      Scheduler f → String → f.Number → String → Scheduler f × AllocateReply f
  allocate_miner m id percentage dest =
      allocate_reply m (allocate f m.dest_split id percentage dest)

  -- append(s[:i], s[i+1:]...) on the slice of the first `len` cells of an array: the cells after
  -- `i` move down by one, and the cells from `len - 1` on keep what they held.
  unfoldable pub delete_cell : List (Split f) → ℕ → ℕ → List (Split f)
  delete_cell cells len i =
      take i cells ++ take (len - suc i) (drop (suc i) cells) ++ drop (len - 1) cells

  abbrev pub is_at : List (Split f) → ℕ → String → Bool
  is_at cells i id = elim (drop i cells) [ [] ↦ false | item ∷ _ ↦ str_eq item.id id ]

  -- The loop of `Deallocate`, with `rounds` of them left from cell `i` on. The range visits the
  -- cells of the array, whose number does not change, while `len` is the length of the slice
  -- m.destSplit.split, which shares the array. `s[i+1:]` panics if i + 1 is above the length.
  unfoldable pub deallocate_loop :
      ℕ → ℕ → List (Split f) → ℕ → String → Bool → List (Split f) × DeallocateReply
  deallocate_loop zero i cells len id found = (take len cells, done found)
  deallocate_loop (suc rounds) i cells len id found =
      let next = deallocate_loop rounds (suc i) cells len id found in
      let removed = deallocate_loop rounds (suc i) (delete_cell cells len i) (len - 1) id true in
      let hit = if ltb len (suc i) then (take len cells, panic) else removed in
      if is_at cells i id then hit else next

  -- `Deallocate`
  unfoldable pub deallocate : Scheduler f → String → Scheduler f × DeallocateReply
  unfolding deallocate_loop delete_cell
  deallocate m id =
      let n = length (iter f m.dest_split) in
      let (split, reply) = deallocate_loop n 0 m.dest_split n id false in
      (record m { dest_split = split }, reply)

  -- `getDest`
  unfoldable pub get_dest : Scheduler f → DestSplit f
  get_dest m = allocate_remaining f (copy f m.dest_split) default_dest_id m.default_dest

  -- time.Since(t)
  unfoldable pub get_uptime : ℤ → Scheduler f → ℤ
  get_uptime now s = now -ℤ s.connected_at

  unfoldable pub is_vetted : ℤ → Scheduler f → Bool
  unfolding get_uptime
  is_vetted now s = not (ltb_ℤ (get_uptime now s) s.miner_vetting_period)

  unfoldable pub get_status : ℤ → Scheduler f → MinerStatus
  unfolding is_vetted
  get_status now s =
      if not (is_vetted now s) then vetting else if length s.dest_split == 0 then free else busy
