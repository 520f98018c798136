-- ===== src/Contracts/SubsetSum.antt =====
-- contractmanager/closest_subset_sum_rgli.go and contractmanager/bit_mask.go: the randomised search
-- for a subset whose sum is closest to a target from above. A mask is the list of its bits, and a
-- write to it is in range. `shuffle k` is the k-th permutation that math/rand makes.
pub mod Masks
pub mod Reaches
pub mod Improve
pub mod Search
use hash_router.Common.{
  ℕ, zero, suc, ◌+◌, ◌-◌, ◌*◌, ◌^◌, ◌≡◌, Bool, true, false, not, ◌&&◌, Option, none, some, List, [],
  ◌∷◌, if◌then◌else◌, length, get_or, set,
}
use hash_router.Common.Int.{ℤ, pos, ◌+ℤ◌, ◌-ℤ◌, neg, ltb_ℤ, eq_ℤ}

abbrev pub BitMask : Type 0
BitMask = List Bool

unfoldable pub new_bit_mask : ℕ → BitMask
new_bit_mask zero = []
new_bit_mask (suc size) = false ∷ new_bit_mask size

-- `Get`; `Set` is `set` of the lists
abbrev pub get_bit : BitMask → ℕ → Bool
get_bit b ind = get_or b ind false

-- The loop of `Which`, from index i on.
unfoldable pub which_from : ℕ → BitMask → Bool → List ℕ
which_from i [] val = []
which_from i (v ∷ b) val =
    let rest = which_from (suc i) b val in
    if val then (if v then i ∷ rest else rest) else if v then rest else i ∷ rest

unfoldable pub which : BitMask → Bool → List ℕ
unfolding which_from
which b val = which_from 0 b val

-- The loop of `delta`, from the sum so far.
unfoldable pub masked_sum_from : ℤ → BitMask → List ℤ → ℤ
masked_sum_from sum [] values = sum
masked_sum_from sum (b ∷ mask) [] = sum
masked_sum_from sum (b ∷ mask) (v ∷ values) =
    masked_sum_from (if b then sum +ℤ v else sum) mask values

unfoldable pub delta : BitMask → List ℤ → ℤ → ℤ
delta value_mask all_values target_sum = target_sum -ℤ masked_sum_from (pos 0) value_mask all_values

unfoldable pub inc_range_from : ℕ → ℕ → List ℕ
inc_range_from i zero = []
inc_range_from i (suc n) = i ∷ inc_range_from (suc i) n

unfoldable pub inc_range : ℕ → List ℕ
unfolding inc_range_from
inc_range n = inc_range_from 0 n

unfoldable pub abs_int : ℤ → ℤ
abs_int a = if ltb_ℤ a (pos 0) then neg a else a

-- One round of the first phase of `trial`: take the element if the target is not reached.
unfoldable pub select_step : BitMask → ℕ → List ℤ → ℤ → BitMask
select_step x v a target = if ltb_ℤ (pos 0) (delta x a target) then set x v true else x

-- The first phase of `trial`.
unfoldable pub select : List ℕ → BitMask → List ℤ → ℤ → BitMask
select [] x a target = x
select (v ∷ order) x a target = select order (select_step x v a target) a target

-- The search of the second phase for an element to put in the place of `existing`, over the
-- indices j, j + 1, … The last that fits is taken; `none` is the index -1.
unfoldable pub find_replacement : ℕ → ℕ → BitMask → List ℤ → ℕ → ℤ → Option ℕ → Option ℕ
find_replacement zero j x a existing delta_x found = found
find_replacement (suc rounds) j x a existing delta_x found =
    let d = get_or a j (pos 0) -ℤ get_or a existing (pos 0) in
    let fits = not (get_bit x j) && ltb_ℤ (abs_int (d +ℤ delta_x)) (abs_int delta_x) in
    find_replacement rounds (suc j) x a existing delta_x (if fits then some j else found)

abbrev pub replace : BitMask → ℕ → Option ℕ → BitMask
replace x existing none = x
replace x existing (some j) = set (set x j true) existing false

-- The second phase.
unfoldable pub improve : List ℕ → BitMask → List ℤ → ℤ → BitMask
unfolding find_replacement
improve [] x a target = x
improve (existing ∷ rest) x a target =
    let delta_x = delta x a target in
    let next =
      improve rest (replace x existing (find_replacement (length a) 0 x a existing delta_x none)) a
        target in
    if eq_ℤ delta_x (pos 0) then x else next

abbrev pub rgli_trials : ℕ
rgli_trials = 50

-- math.MaxInt
abbrev pub max_int : ℤ
max_int = pos (2 ^ 63 - 1)

module _ (shuffle : ℕ → List ℕ → List ℕ) where
  unfoldable pub trial : ℕ → List ℤ → ℤ → BitMask
  trial k a target =
      let x = select (shuffle k (inc_range (length a))) (new_bit_mask (length a)) a target in
      improve (shuffle (suc k) (which x true)) x a target

  -- The loop over the trials; each of them shuffles twice.
  unfoldable pub rgli_loop : ℕ → ℕ → List ℤ → ℤ → BitMask → ℤ → BitMask × ℤ
  rgli_loop zero k arr sum best_mask best_delta = (best_mask, best_delta)
  rgli_loop (suc trials) k arr sum best_mask best_delta =
      let mask = trial k arr sum in
      let d = delta mask arr sum in
      let is_better = ltb_ℤ (abs_int d) (abs_int best_delta) in
      let best_mask' = if is_better then mask else best_mask in
      let best_delta' = if is_better then d else best_delta in
      let rest = rgli_loop trials (suc (suc k)) arr sum best_mask' best_delta' in
      if eq_ℤ best_delta' (pos 0) then (best_mask', best_delta') else rest

  unfoldable pub closest_subset_sum_rgli : ℕ → List ℤ → ℤ → List ℕ × ℤ
  closest_subset_sum_rgli k arr sum =
      let (mask, d) = rgli_loop rgli_trials k arr sum (new_bit_mask (length arr)) max_int in
      (which mask true, d)
