-- ===== src/Miner/DestSplit/Lookup.antt =====
-- miner/dest_split.go: how each operation changes the split that is found under an ID.
use hash_router.Common.{
  ℕ, ◌+◌, ◌-◌, ◌≡◌, refl, ◌≢◌, String, false, some, [], ◌∷◌, arith, str_eq, eq_iff, if◌then◌else◌,
  ok, err, is_some,
}
use mathlib.Core.Option
use hash_router.Float.{Float64, IsOrdered}
use hash_router.Miner.DestSplit.{
  Split, exceeds_one, DestSplit, get_unallocated, adjust_percentage, allocate, allocate_exact,
  increase_allocation, get_by_id, set_fraction_by_id, remove_by_id,
}

module _ (f : Float64) where
  -- Setting a fraction reports whether the ID is there, and changes the percentage of the split
  -- found under it and nothing else that can be looked up.
  pub get_by_id-set_fraction_by_id :
      (d : DestSplit f) (id j : String) (x : f.Number)
      → ((set_fraction_by_id f d id x).1 ≡ is_some (get_by_id f d id))
        × (get_by_id f (set_fraction_by_id f d id x).0 j ≡ (
            if str_eq id j
            then Option.map (λ (s : Split f). record s { percentage = x }) (get_by_id f d j)
            else get_by_id f d j))
  unfolding set_fraction_by_id get_by_id
  get_by_id-set_fraction_by_id [] id j x = (refl, ground arith)
  get_by_id-set_fraction_by_id (item ∷ rest) id j x = ground (
    arith,
    get_by_id-set_fraction_by_id rest id j x,
    eq_iff id j,
    eq_iff item.id id,
    eq_iff item.id j,
  )

  -- Increasing an allocation reports whether the ID is there, and adds to the percentage of the
  -- split found under it and to nothing else that can be looked up.
  pub get_by_id-increase_allocation :
      (d : DestSplit f) (id j : String) (x : f.Number)
      → ((increase_allocation f d id x).1 ≡ is_some (get_by_id f d id))
        × (get_by_id f (increase_allocation f d id x).0 j ≡ (
            if str_eq id j
            then Option.map
                (λ (s : Split f). record s { percentage = f.add s.percentage x })
                (get_by_id f d j)
            else get_by_id f d j))
  unfolding increase_allocation get_by_id
  get_by_id-increase_allocation [] id j x = (refl, ground arith)
  get_by_id-increase_allocation (item ∷ rest) id j x = ground (
    arith,
    get_by_id-increase_allocation rest id j x,
    eq_iff id j,
    eq_iff item.id id,
    eq_iff item.id j,
  )

  -- The number of splits under an ID.
  unfoldable pub count : DestSplit f → String → ℕ
  count [] id = 0
  count (item ∷ rest) id = (if str_eq item.id id then 1 else 0) + count rest id

  -- Removing an ID reports whether it is there, takes one of its splits away, and leaves what is
  -- found under every other ID.
  pub remove_by_id-count :
      (d : DestSplit f) (id : String)
      → ((remove_by_id f d id).1 ≡ is_some (get_by_id f d id))
        × (count (remove_by_id f d id).0 id ≡ count d id - 1)
        × ((j : String) → id ≢ j → get_by_id f (remove_by_id f d id).0 j ≡ get_by_id f d j)
  unfolding remove_by_id get_by_id count
  remove_by_id-count [] id = (refl, refl, λ j h. refl)
  remove_by_id-count (item ∷ rest) id =
      let ih = remove_by_id-count rest id in
      (
        ground (arith, ih.0),
        ground (arith, ih.1),
        λ j h. ground (arith, ih.2 j, eq_iff item.id id, eq_iff item.id j, eq_iff id j),
      )

  module _ (o : IsOrdered f) where
    adjust_percentage-valid :
        (p : f.Number)
        → (f.lt (f.const 1 1) (adjust_percentage f p) ≡ false)
          × (f.eq (adjust_percentage f p) (f.const 0 1) ≡ false)
    unfolding adjust_percentage
    adjust_percentage-valid p = grind (
      arith,
      o.lt_irrefl (f.const 5 100),
      o.lt_irrefl (f.const 1 1),
      o.zero-lt-min,
      o.min-lt-max,
      o.max-lt-one,
      o.lt_trans (f.const 95 100) (f.const 1 1) p,
      o.lt_trans (f.const 5 100) (f.const 95 100) (f.const 1 1),
      o.lt_trans (f.const 1 1) (f.const 5 100) (f.const 1 1),
      o.lt_trans (f.const 0 1) (f.const 5 100) (f.const 1 1),
      o.lt_of_eq (f.const 5 100) (f.const 0 1) (f.const 5 100),
      o.lt_of_eq (f.const 1 1) (f.const 0 1) (f.const 1 1),
      o.lt_of_eq p (f.const 0 1) (f.const 5 100),
    )

    -- Where the numbers are ordered: `Allocate` fails exactly when the adjusted percentage is above what is unallocated, and then
    -- for that reason. Otherwise the new split has the adjusted percentage, is found under its ID
    -- at once, hides an older split of the same ID, and leaves the other IDs as they were.
    pub allocate_lem :
        (d : DestSplit f) (id : String) (p : f.Number) (dest : String)
        → let s : Split f = record { id = id; percentage = adjust_percentage f p; dest = dest } in
          (allocate f d id p dest ≡ (
            if f.lt (get_unallocated f d) (adjust_percentage f p)
            then err exceeds_one
            else ok (s, s ∷ d)))
          × ((j : String)
              → get_by_id f (s ∷ d) j ≡ (if str_eq id j then some s else get_by_id f d j))
    unfolding allocate allocate_exact get_by_id
    allocate_lem d id p dest = (ground (arith, adjust_percentage-valid p), λ j. refl)
