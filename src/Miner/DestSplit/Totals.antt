-- ===== src/Miner/DestSplit/Totals.antt =====
-- miner/dest_split.go: the sum of the percentages, under exact arithmetic.
use hash_router.Common.{
  ◌≡◌, refl, sym, ap, ◌∙◌, ◌⊎◌, String, false, [], ◌∷◌, arith, if◌then◌else◌, ok,
}
use hash_router.Float.{Float64, IsExact, IsOrdered}
use hash_router.Miner.DestSplit.{
  Split, DestSplit, sum_percentages, get_allocated, get_unallocated, adjust_percentage, allocate,
  allocate_exact, allocate_remaining, increase_allocation,
}

module _ (f : Float64) (x : IsExact f) where
  sum_percentages-add :
      (total : f.Number) (d : DestSplit f)
      → sum_percentages f total d ≡ f.add total (get_allocated f d)
  unfolding sum_percentages get_allocated
  sum_percentages-add total [] = sym (x.add_comm total (f.const 0 1) ∙ x.zero-add total)
  sum_percentages-add total (s ∷ d) =
      sum_percentages-add (f.add total s.percentage) d
      ∙ x.add_assoc total s.percentage (get_allocated f d)
      ∙ ap (f.add total) (
          sym (
            sum_percentages-add (f.add (f.const 0 1) s.percentage) d
            ∙ ap (λ y. f.add y (get_allocated f d)) (x.zero-add s.percentage)))

  pub get_allocated-cons :
      (s : Split f) (d : DestSplit f)
      → get_allocated f (s ∷ d) ≡ f.add s.percentage (get_allocated f d)
  unfolding sum_percentages get_allocated
  get_allocated-cons s d =
      sum_percentages-add (f.add (f.const 0 1) s.percentage) d
      ∙ ap (λ y. f.add y (get_allocated f d)) (x.zero-add s.percentage)

  allocate_exact-le_one :
      (d d' : DestSplit f) (s : Split f) (id : String) (p : f.Number) (dest : String)
      → allocate_exact f d id p dest ≡ ok (s, d')
      → f.lt (f.const 1 1) (get_allocated f d') ≡ false
  unfolding allocate_exact get_unallocated
  allocate_exact-le_one d d' s id p dest h = ground (
    arith,
    get_allocated-cons (record { id = id; percentage = p; dest = dest }) d,
    x.lt-sub (f.const 1 1) (get_allocated f d) p,
  )

  -- Where sums are exact: whatever was allocated before, an allocation that succeeds leaves a total of at most 1.
  pub allocate-le_one :
      (d d' : DestSplit f) (s : Split f) (id : String) (p : f.Number) (dest : String)
      → allocate f d id p dest ≡ ok (s, d')
      → f.lt (f.const 1 1) (get_allocated f d') ≡ false
  unfolding allocate
  allocate-le_one d d' s id p dest h =
      allocate_exact-le_one d d' s id (adjust_percentage f p) dest h

  -- Where sums are exact and ordered: `AllocateRemaining` completes the total to 1: either it is 1 already and nothing changes, or a
  -- split for the missing part is put in front. That part is negative where more than 1 was
  -- allocated. The condition is that the total was not negative.
  pub allocate_remaining-completes :
      (o : IsOrdered f) (d : DestSplit f) (id dest : String)
      → f.lt (f.const 1 1) (get_unallocated f d) ≡ false
      → let s : Split f = record { id = id; percentage = get_unallocated f d; dest = dest } in
        (get_allocated f (allocate_remaining f d id dest) ≡ f.const 1 1)
        × ((allocate_remaining f d id dest ≡ d) ⊎ (allocate_remaining f d id dest ≡ s ∷ d))
  unfolding allocate_remaining allocate_exact get_unallocated
  allocate_remaining-completes o d id dest h = ground (
    arith,
    get_allocated-cons
        (record { id = id; percentage = f.sub (f.const 1 1) (get_allocated f d); dest = dest }) d,
    x.add-sub (f.const 1 1) (get_allocated f d),
    x.zero-add (get_allocated f d),
    x.eq_of_eq (f.sub (f.const 1 1) (get_allocated f d)) (f.const 0 1),
    o.lt_irrefl (f.sub (f.const 1 1) (get_allocated f d)),
  )

  -- `IncreaseAllocation` has no guard: where sums are exact, it adds the increase to the total, however large it is.
  pub get_allocated-increase_allocation :
      (d : DestSplit f) (id : String) (p : f.Number)
      → get_allocated f (increase_allocation f d id p).0 ≡ (
          if (increase_allocation f d id p).1
          then f.add p (get_allocated f d)
          else get_allocated f d)
  unfolding increase_allocation
  get_allocated-increase_allocation [] id p = refl
  get_allocated-increase_allocation (s ∷ d) id p = ground (
    arith,
    get_allocated-increase_allocation d id p,
    get_allocated-cons s d,
    get_allocated-cons s (increase_allocation f d id p).0,
    get_allocated-cons (record { id = id; percentage = f.add s.percentage p; dest = s.dest }) d,
    x.add_assoc p s.percentage (get_allocated f d),
    x.add_assoc s.percentage p (get_allocated f d),
    x.add_comm p s.percentage,
    x.add_assoc p s.percentage (get_allocated f (increase_allocation f d id p).0),
  )
