-- ===== src/Examples/Search.antt =====
-- contractmanager/closest_subset_sum_rgli.go on three elements. The shuffle keeps the order.
use mathlib.Core.List.Perm
use hash_router.Common.{ℕ, ◌≡◌, refl, true, false, none, some, List, [], ◌∷◌, arith, get_or}
use hash_router.Common.Int.{ℤ, pos, neg, ◌+ℤ◌, ◌-ℤ◌, ◌≤ℤ◌}
use hash_router.Contracts.SubsetSum.{
  BitMask, abs_int, masked_sum_from, delta, find_replacement, improve, closest_subset_sum_rgli,
}
use hash_router.Contracts.SubsetSum.Masks.{sum, AreNonnegative}
use hash_router.Contracts.SubsetSum.Improve.{improve_never_improves}
use hash_router.Contracts.SubsetSum.Search.{sum_at, closest_subset_sum_rgli-reaches}

abbrev elements : List ℤ
elements = pos 5 ∷ pos 6 ∷ pos 3 ∷ []

abbrev keep : ℕ → List ℕ → List ℕ
keep k l = l

-- The first element is selected, and the target is 3: the sum is 2 above it.
abbrev first_selected : BitMask
first_selected = true ∷ false ∷ false ∷ []

elements-AreNonnegative : AreNonnegative elements
elements-AreNonnegative = ground arith

-- Replacing 5 by 3 would reach the target. The search takes 6, which misses it by 3.
find_replacement_run :
    find_replacement 3 0 first_selected elements 0 (delta first_selected elements (pos 3)) none
    ≡ some 1
unfolding find_replacement abs_int ◌+ℤ◌ ◌-ℤ◌ delta masked_sum_from neg
find_replacement_run = refl

closest_subset_sum_rgli-reaches_example :
    let (ids, d) = closest_subset_sum_rgli keep 0 elements (pos 3) in
    (d ≤ℤ pos 0) × (sum_at (λ i. get_or elements i (pos 0)) ids ≡ pos 3 -ℤ d)
unfolding sum ◌+ℤ◌
closest_subset_sum_rgli-reaches_example =
    closest_subset_sum_rgli-reaches keep (λ k l. Perm.refl l) elements (pos 3)
      elements-AreNonnegative (ground arith) (omega arith) (ground arith) 0

improve_never_improves_example :
    delta (improve (0 ∷ []) first_selected elements (pos 3)) elements (pos 3)
    ≤ℤ delta first_selected elements (pos 3)
unfolding delta masked_sum_from ◌+ℤ◌ ◌-ℤ◌
improve_never_improves_example =
    improve_never_improves elements (pos 3) (0 ∷ []) first_selected elements-AreNonnegative refl
      (ground arith)
