-- ===== src/Contracts/SubsetSum/Search.antt =====
-- contractmanager/closest_subset_sum_rgli.go: what `ClosestSubsetSumRGLI` returns.
use mathlib.Core.List.{Perm}
use hash_router.Common.{
  ℕ, zero, suc, ◌+◌, ◌≡◌, refl, ap, ap₂, sym, ◌∙◌, inl, inr, true, false, List, [], ◌∷◌, arith,
  if◌then◌else◌, length, get_or, Bool-cases, add-zero, zero-add,
}
use hash_router.Common.Int.{
  ℤ, pos, pos_part, neg_part, ◌+ℤ◌, ◌-ℤ◌, ◌≤ℤ◌, ◌<ℤ◌, ltb_ℤ, eq_ℤ, int_laws, neg_parts, -ℤ_parts,
  eq_of_parts,
}
use hash_router.Contracts.SubsetSum.{
  BitMask, delta, abs_int, trial, rgli_loop, rgli_trials, closest_subset_sum_rgli, new_bit_mask,
  which, which_from, select, inc_range, max_int,
}
use hash_router.Contracts.SubsetSum.Masks.{
  masked_sum, masked_sum-nil, sum, AreNonnegative, delta_parts, length-new_bit_mask,
}
use hash_router.Contracts.SubsetSum.Reaches.{select-reaches, length-select}
use hash_router.Contracts.SubsetSum.Improve.{improve_never_improves}

-- The sum of the values at some indices.
unfoldable pub sum_at : (ℕ → ℤ) → List ℕ → ℤ
sum_at g [] = pos 0
sum_at g (i ∷ ids) = g i +ℤ sum_at g ids

at_start : (g : ℕ → ℤ) (i : ℕ) {h : ℕ → ℤ} → ((j : ℕ) → g (i + j) ≡ h j) → g i ≡ h 0
at_start g i e = ap g (sym (add-zero i)) ∙ e 0

shifted : (g : ℕ → ℤ) (i j : ℕ) {v : ℤ} → g (i + suc j) ≡ v → g (suc i + j) ≡ v
shifted g i j e = let same : suc i + j ≡ i + suc j = omega arith in ap g same ∙ e

sum_at-which_from :
    (g : ℕ → ℤ) (i : ℕ) (x : BitMask) (a : List ℤ)
    → ((j : ℕ) → g (i + j) ≡ get_or a j (pos 0))
    → sum_at g (which_from i x true) ≡ masked_sum x a
unfolding sum_at which_from masked_sum
sum_at-which_from g i [] a h = refl
sum_at-which_from g i (true ∷ x) [] h =
    ap₂ ◌+ℤ◌ (at_start g i h)
      (sum_at-which_from g (suc i) x [] (λ j. shifted g i j (h (suc j))) ∙ masked_sum-nil x)
    ∙ eq_of_parts (pos 0 +ℤ pos 0) (pos 0) (omega int_laws)
sum_at-which_from g i (false ∷ x) [] h =
    sum_at-which_from g (suc i) x [] (λ j. shifted g i j (h (suc j))) ∙ masked_sum-nil x
sum_at-which_from g i (true ∷ x) (v ∷ a) h =
    ap₂ ◌+ℤ◌ (at_start g i h) (sum_at-which_from g (suc i) x a (λ j. shifted g i j (h (suc j))))
sum_at-which_from g i (false ∷ x) (v ∷ a) h =
    sum_at-which_from g (suc i) x a (λ j. shifted g i j (h (suc j)))
    ∙ eq_of_parts (masked_sum x a) (pos 0 +ℤ masked_sum x a) (omega int_laws)

masked_sum-le-sum : (x : BitMask) (a : List ℤ) → AreNonnegative a → masked_sum x a ≤ℤ sum a
unfolding masked_sum sum
masked_sum-le-sum [] [] h = omega arith
masked_sum-le-sum [] (v ∷ a) h = omega (int_laws, masked_sum-le-sum [] a h.1, h.0)
masked_sum-le-sum (b ∷ x) [] h = omega arith
masked_sum-le-sum (true ∷ x) (v ∷ a) h = omega (int_laws, masked_sum-le-sum x a h.1)
masked_sum-le-sum (false ∷ x) (v ∷ a) h = omega (int_laws, masked_sum-le-sum x a h.1, h.0)

-- A mask with its delta, which is not above 0.
pub record IsGood (a : List ℤ) (target : ℤ) (mask : BitMask) (d : ℤ) : Type 0 where
  pub is_delta : delta mask a target ≡ d
  pub reaches : d ≤ℤ pos 0

module _ (shuffle : ℕ → List ℕ → List ℕ) (permutes : (k : ℕ) (l : List ℕ) → Perm (shuffle k l) l)
    (a : List ℤ) (target : ℤ) (nonneg : AreNonnegative a) (enough : target ≤ℤ sum a) where
  trial-reaches : (k : ℕ) → delta (trial shuffle k a target) a target ≤ℤ pos 0
  unfolding trial
  trial-reaches k =
      let order = shuffle k (inc_range (length a)) in
      let x = select order (new_bit_mask (length a)) a target in
      let reached : delta x a target ≤ℤ pos 0 =
        select-reaches a target order nonneg (permutes k (inc_range (length a))) enough in
      let size : length x ≡ length a =
        length-select a target order (new_bit_mask (length a)) ∙ length-new_bit_mask (length a) in
      omega (
        arith,
        reached,
        improve_never_improves a target (shuffle (suc k) (which x true)) x nonneg size reached,
      )

  trial-IsGood :
      (k : ℕ)
      → IsGood a target (trial shuffle k a target) (delta (trial shuffle k a target) a target)
  trial-IsGood k = record { is_delta = refl; reaches = trial-reaches k }

  -- The early end of the loop at a delta of 0.
  stop-IsGood :
      (trials k : ℕ) (m : BitMask) (e : ℤ)
      → IsGood a target m e
      → (let r = rgli_loop shuffle trials k a target m e in IsGood a target r.0 r.1)
      → let r = if eq_ℤ e (pos 0) then (m, e) else rgli_loop shuffle trials k a target m e in
        IsGood a target r.0 r.1
  stop-IsGood trials k m e now later = elim (Bool-cases (eq_ℤ e (pos 0))) [
    | inl exact ↦ rw exact now
    | inr over ↦ rw over later
  ]

  rgli_loop-IsGood :
      (trials k : ℕ) (mask : BitMask) (d : ℤ)
      → IsGood a target mask d
      → let r = rgli_loop shuffle trials k a target mask d in IsGood a target r.0 r.1
  unfolding rgli_loop
  rgli_loop-IsGood zero k mask d h = h
  rgli_loop-IsGood (suc trials) k mask d h =
      let x = trial shuffle k a target in
      let d' = delta x a target in
      elim (Bool-cases (ltb_ℤ (abs_int d') (abs_int d))) [
        | inl better ↦ rw better (
            stop-IsGood trials (suc (suc k)) x d' (trial-IsGood k)
              (rgli_loop-IsGood trials (suc (suc k)) x d' (trial-IsGood k)))
        | inr worse ↦ rw worse (
            stop-IsGood trials (suc (suc k)) mask d h
              (rgli_loop-IsGood trials (suc (suc k)) mask d h))
      ]

  rgli_loop-first :
      (trials k : ℕ) (mask : BitMask) (d : ℤ)
      → ltb_ℤ (abs_int (delta (trial shuffle k a target) a target)) (abs_int d) ≡ true
      → let r = rgli_loop shuffle (suc trials) k a target mask d in IsGood a target r.0 r.1
  unfolding rgli_loop
  rgli_loop-first trials k mask d better =
      let x = trial shuffle k a target in
      let d' = delta x a target in
      rw better (
        stop-IsGood trials (suc (suc k)) x d' (trial-IsGood k)
          (rgli_loop-IsGood trials (suc (suc k)) x d' (trial-IsGood k)))

  module _ (target_nonneg : pos 0 ≤ℤ target) (bounded : sum a <ℤ max_int) where
    first-better :
        (k : ℕ)
        → ltb_ℤ (abs_int (delta (trial shuffle k a target) a target)) (abs_int max_int) ≡ true
    unfolding abs_int
    first-better k =
        let x = trial shuffle k a target in
        ground (
          arith,
          delta_parts x a target,
          masked_sum-le-sum x a nonneg,
          trial-reaches k,
          neg_parts (delta x a target),
        )

    -- For shuffles that permute, elements and a target that are not negative, a target that all elements together reach, and a total below math.MaxInt, the search
    -- returns indices whose elements add up to the target less the returned delta, and that delta
    -- is never above 0: the target is reached, whatever the shuffles were.
    pub closest_subset_sum_rgli-reaches :
        (k : ℕ)
        → let (ids, d) = closest_subset_sum_rgli shuffle k a target in
          (d ≤ℤ pos 0) × (sum_at (λ i. get_or a i (pos 0)) ids ≡ target -ℤ d)
    unfolding closest_subset_sum_rgli which
    closest_subset_sum_rgli-reaches k =
        let r = rgli_loop shuffle rgli_trials k a target (new_bit_mask (length a)) max_int in
        let good : IsGood a target r.0 r.1 =
          rgli_loop-first 49 k (new_bit_mask (length a)) max_int (first-better k) in
        (
          good.reaches,
          sum_at-which_from (λ i. get_or a i (pos 0)) 0 r.0 a
                (λ j. ap (λ i. get_or a i (pos 0)) (zero-add j))
              ∙ eq_of_parts (masked_sum r.0 a) (target -ℤ r.1) (
                  omega (
                    arith,
                    -ℤ_parts target r.1,
                    delta_parts r.0 a target,
                    ap pos_part good.is_delta,
                    ap neg_part good.is_delta,
                  )),
        )
