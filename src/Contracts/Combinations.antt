-- ===== src/Contracts/Combinations.antt =====
-- contractmanager/combinations.go: which miners together have a hash rate.
use hash_router.Common.{ℕ, String, none, some, List, [], ◌∷◌, map, get_or}
use hash_router.Common.Int.{ℤ, pos, neg}
use hash_router.Common.Dict.{get}
use hash_router.Float.{Float64}
use hash_router.Contracts.AllocSnap.{AllocCollection, add_item, allocated_ghs}
use hash_router.Contracts.SubsetSum.{closest_subset_sum_rgli}

-- `sort_strings` is sort.Strings, and `shuffle` the permutations of math/rand.
module _ (f : Float64) (sort_strings : List String → List String)
    (shuffle : ℕ → List ℕ → List ℕ) where
  -- The keys of the map, sorted.
  unfoldable pub sorted_keys : AllocCollection f → List String
  sorted_keys list = sort_strings (map (λ e. e.0) list)

  -- list.GetItems()[key].AllocatedGHS() for a key of the map
  abbrev pub ghs_of : AllocCollection f → String → ℤ
  ghs_of list key = elim (get list key) [ none ↦ pos 0 | some item ↦ allocated_ghs f item ]

  unfoldable pub add_indexed :
      AllocCollection f → List String → List ℕ → AllocCollection f → AllocCollection f
  add_indexed list keys [] res = res
  add_indexed list keys (index ∷ rest) res =
      let key = get_or keys index "" in
      add_indexed list keys rest
        (elim (get list key) [ none ↦ res | some item ↦ add_item f res key item ])

  unfoldable pub find_closest_miner_combination : ℕ → AllocCollection f → ℤ → AllocCollection f × ℤ
  unfolding add_indexed
  find_closest_miner_combination k list target =
      let keys = sorted_keys list in
      let (indexes, d) = closest_subset_sum_rgli shuffle k (map (ghs_of list) keys) target in
      (add_indexed list keys indexes [], neg d)

  unfoldable pub find_combinations : ℕ → AllocCollection f → ℤ → AllocCollection f × ℤ
  find_combinations k list target = find_closest_miner_combination k list target
