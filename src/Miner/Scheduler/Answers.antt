-- ===== src/Miner/Scheduler/Answers.antt =====
-- miner/on_demand_miner_scheduler.go: what an allocation answers, and the cycle that follows it.
use hash_router.Common.{
  suc, ◌≡◌, refl, ap, String, true, false, [], ◌∷◌, arith, if◌then◌else◌, length, ok, err, ◌==◌,
}
use hash_router.Float.{Float64, IsExact, IsOrdered}
use hash_router.Miner.DestSplit.{
  Split, DestSplit, get_allocated, get_unallocated, sum_percentages, allocate, copy,
}
use hash_router.Miner.DestSplit.Totals.{allocate_remaining-completes}
use hash_router.Miner.Scheduler.{
  Scheduler, allocated, refused, blocked, allocate_miner, get_dest, default_dest_id,
}

module _ (f : Float64) where
  sum_percentages-copy :
      (total : f.Number) (d : DestSplit f)
      → sum_percentages f total (copy f d) ≡ sum_percentages f total d
  unfolding sum_percentages copy
  sum_percentages-copy total [] = refl
  sum_percentages-copy total (s ∷ d) = sum_percentages-copy (f.add total s.percentage) d

  get_unallocated-copy : (d : DestSplit f) → get_unallocated f (copy f d) ≡ get_unallocated f d
  unfolding get_unallocated get_allocated
  get_unallocated-copy d = ap (f.sub (f.const 1 1)) (sum_percentages-copy (f.const 0 1) d)

  -- The shares of a scheduler cycle add up to the whole miner, provided that sums are exact and
  -- ordered and what is allocated is
  -- not negative: the default destination gets the rest.
  get_dest-total :
      (x : IsExact f) (o : IsOrdered f) (m : Scheduler f)
      → f.lt (f.const 1 1) (get_unallocated f m.dest_split) ≡ false
      → get_allocated f (get_dest f m) ≡ f.const 1 1
  unfolding get_dest
  get_dest-total x o m h =
      (allocate_remaining-completes f x o (copy f m.dest_split) default_dest_id m.default_dest
        (rw (get_unallocated-copy m.dest_split) h)).0

  length-copy : (d : DestSplit f) → length (copy f d) ≡ length d
  unfolding copy
  length-copy [] = refl
  length-copy (s ∷ d) = ap suc (length-copy d)

  -- A failed allocation changes nothing. One that succeeds asks for a new cycle exactly where the
  -- miner had no split. It blocks there, with the split in place, if a request is still pending.
  pub allocate_miner_lem :
      (m : Scheduler f) (id dest : String) (p : f.Number)
      → let (m', reply) = allocate_miner f m id p dest in
        ((d : DestSplit f) (s : Split f)
          → allocate f m.dest_split id p dest ≡ ok (s, d)
          → (m'.dest_split ≡ d)
            × (m'.restart_dest_cycle
                ≡ (if length m.dest_split == 0 then true else m.restart_dest_cycle))
            × (reply ≡ (
                if length m.dest_split == 0
                then (if m.restart_dest_cycle then blocked else allocated s)
                else allocated s)))
        × ((e : _) → allocate f m.dest_split id p dest ≡ err e → (m' ≡ m) × (reply ≡ refused e))
  unfolding allocate_miner
  allocate_miner_lem m id dest p =
      (λ d s e. ground (arith, length-copy m.dest_split), λ e h. ground arith)
