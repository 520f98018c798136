-- ===== src/Miner/DestSplit/Within.antt =====
-- miner/dest_split.go: the invariant of a miner whose shares are only allocated and removed.
use hash_router.Common.{◌≡◌, refl, String, true, false, List, [], ◌∷◌, arith, Result, ok, err, All}
use hash_router.Float.{Float64, IsExact, IsOrdered}
use hash_router.Miner.DestSplit.{
  DestSplit, get_allocated, adjust_percentage, allocate, allocate_exact, remove_by_id, after,
  new_dest_split, sum_percentages,
}
use hash_router.Miner.DestSplit.Totals.{get_allocated-cons, allocate-le_one}

module _ (f : Float64) where
  abbrev pub ArePositive : DestSplit f → Type 0
  ArePositive d = All (λ s. f.lt (f.const 0 1) s.percentage ≡ true) d

  -- Every split has a positive percentage, and together they are at most 1.
  pub record IsWithin (d : DestSplit f) : Type 0 where
    pub positive : ArePositive d
    pub total : f.lt (f.const 1 1) (get_allocated f d) ≡ false

  pub data Change : Type 0 where
    allocates : String → f.Number → String → Change
    removes : String → Change

  unfoldable pub step : DestSplit f → Change → DestSplit f
  step d (allocates id p dest) = after f d (allocate f d id p dest)
  step d (removes id) = (remove_by_id f d id).0

  unfoldable pub run : DestSplit f → List Change → DestSplit f
  run d [] = d
  run d (c ∷ cs) = run (step d c) cs

module _ (f : Float64) (x : IsExact f) (o : IsOrdered f) where
  adjust_percentage-positive : (p : f.Number) → f.lt (f.const 0 1) (adjust_percentage f p) ≡ true
  unfolding adjust_percentage
  adjust_percentage-positive p = ground (
    arith,
    o.zero-lt-min,
    x.lt_of_lt_of_le (f.const 0 1) (f.const 5 100) p,
    o.lt_trans (f.const 0 1) (f.const 5 100) (f.const 95 100) o.zero-lt-min o.min-lt-max,
    o.lt_trans (f.const 0 1) (f.const 95 100) (f.const 1 1),
    o.max-lt-one,
  )

  lt-add_left : (a s : f.Number) → f.lt (f.const 0 1) s ≡ true → f.lt a (f.add s a) ≡ true
  lt-add_left a s h = ground (arith, x.lt-add (f.const 0 1) s a, x.zero-add a)

  not_lt-of_lt : (a b : f.Number) → f.lt a b ≡ true → f.lt b a ≡ false
  not_lt-of_lt a b h = ground (arith, o.lt_trans a b a, o.lt_irrefl a)

  remove-positive :
      (d : DestSplit f) (id : String) → ArePositive f d → ArePositive f (remove_by_id f d id).0
  unfolding remove_by_id
  remove-positive [] id h = tt
  remove-positive (s ∷ d) id h = ground (arith, remove-positive d id h.1)

  remove-le :
      (d : DestSplit f) (id : String)
      → ArePositive f d
      → f.lt (get_allocated f d) (get_allocated f (remove_by_id f d id).0) ≡ false
  unfolding remove_by_id
  remove-le [] id h = o.lt_irrefl (get_allocated f [])
  remove-le (s ∷ d) id h = ground (
    arith,
    remove-le d id h.1,
    get_allocated-cons f x s d,
    get_allocated-cons f x s (remove_by_id f d id).0,
    lt-add_left (get_allocated f d) s.percentage h.0,
    not_lt-of_lt (get_allocated f d) (f.add s.percentage (get_allocated f d)),
    x.lt-add (get_allocated f d) (get_allocated f (remove_by_id f d id).0) s.percentage,
    x.add_comm s.percentage (get_allocated f d),
    x.add_comm s.percentage (get_allocated f (remove_by_id f d id).0),
  )

  allocate-positive :
      (d : DestSplit f) (id : String) (p : f.Number) (dest : String)
      → ArePositive f d
      → ArePositive f (after f d (allocate f d id p dest))
  unfolding allocate allocate_exact
  allocate-positive d id p dest h = ground (arith, adjust_percentage-positive p)

  allocate-total :
      (d : DestSplit f) (id : String) (p : f.Number) (dest : String)
      → (r : Result _ _) → allocate f d id p dest ≡ r
      → IsWithin f d
      → f.lt (f.const 1 1) (get_allocated f (after f d r)) ≡ false
  allocate-total d id p dest (ok (s, d')) e w = allocate-le_one f x d d' s id p dest e
  allocate-total d id p dest (err _) e w = w.total

  step-IsWithin : (d : DestSplit f) (c : Change f) → IsWithin f d → IsWithin f (step f d c)
  unfolding step
  step-IsWithin d (allocates id p dest) w = record {
    positive = allocate-positive d id p dest w.positive;
    total = allocate-total d id p dest (allocate f d id p dest) refl w;
  }
  step-IsWithin d (removes id) w = record {
    positive = remove-positive d id w.positive;
    total = ground (
      arith,
      w.total,
      remove-le d id w.positive,
      x.lt_of_lt_of_le (f.const 1 1) (get_allocated f (remove_by_id f d id).0) (get_allocated f d),
    );
  }

  run-IsWithin : (d : DestSplit f) (cs : List (Change f)) → IsWithin f d → IsWithin f (run f d cs)
  unfolding run
  run-IsWithin d [] w = w
  run-IsWithin d (c ∷ cs) w = run-IsWithin (step f d c) cs (step-IsWithin d c w)

  zero-lt-one : f.lt (f.const 0 1) (f.const 1 1) ≡ true
  zero-lt-one = o.lt_trans _ _ _ (o.lt_trans _ _ _ o.zero-lt-min o.min-lt-max) o.max-lt-one

  new-IsWithin : IsWithin f (new_dest_split f)
  unfolding new_dest_split get_allocated sum_percentages
  new-IsWithin = record {
    positive = tt;
    total = not_lt-of_lt (f.const 0 1) (f.const 1 1) zero-lt-one;
  }

  -- Where sums are exact and the numbers are ordered: from a new miner, after any sequence of allocations and removals, whether they succeed or not,
  -- every split has a positive percentage and together they are at most 1.
  run-new-IsWithin : (cs : List (Change f)) → IsWithin f (run f (new_dest_split f) cs)
  run-new-IsWithin cs = run-IsWithin (new_dest_split f) cs new-IsWithin
