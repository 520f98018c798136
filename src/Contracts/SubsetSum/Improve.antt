-- ===== src/Contracts/SubsetSum/Improve.antt =====
-- contractmanager/closest_subset_sum_rgli.go: the second phase of `trial`, which is meant to bring
-- the sum closer to the target.
use hash_router.Common.{
  ℕ, zero, suc, ◌+◌, ◌<◌, ◌≡◌, refl, ap, subst, ◌∙◌, inl, inr, true, false, not, ◌&&◌, Option, none,
  some, List, [], ◌∷◌, arith, length, get_or, set, Bool-cases,
}
use hash_router.Common.Int.{
  ℤ, pos, pos_part, neg_part, ◌+ℤ◌, ◌-ℤ◌, ◌≤ℤ◌, ◌<ℤ◌, ltb_ℤ, eq_ℤ, int_laws, neg_parts, +ℤ_parts,
}
use hash_router.Contracts.SubsetSum.{
  BitMask, get_bit, delta, abs_int, find_replacement, replace, improve,
}
use hash_router.Contracts.SubsetSum.Masks.{
  AreNonnegative, delta_parts, masked_sum-set-true, masked_sum-set-false,
}
use hash_router.Contracts.SubsetSum.Reaches.{length-set}

-- What the search tests of the index it returns.
pub record Fits (x : BitMask) (a : List ℤ) (existing : ℕ) (delta_x : ℤ) (j : ℕ) : Type 0 where
  pub is_free : get_bit x j ≡ false
  pub in_range : j < length a
  pub closer :
      ltb_ℤ (abs_int (get_or a j (pos 0) -ℤ get_or a existing (pos 0) +ℤ delta_x)) (abs_int delta_x)
      ≡ true

abbrev AllFit : BitMask → List ℤ → ℕ → ℤ → Option ℕ → Type 0
AllFit x a existing delta_x none = Unit
AllFit x a existing delta_x (some j) = Fits x a existing delta_x j

find_replacement-Fits :
    (rounds j : ℕ) (x : BitMask) (a : List ℤ) (existing : ℕ) (delta_x : ℤ) (found : Option ℕ)
    → rounds + j ≡ length a
    → AllFit x a existing delta_x found
    → AllFit x a existing delta_x (find_replacement rounds j x a existing delta_x found)
unfolding find_replacement
find_replacement-Fits zero j x a existing delta_x found e h = h
find_replacement-Fits (suc rounds) j x a existing delta_x found e h =
    elim (Bool-cases (
      not (get_bit x j)
      && ltb_ℤ (abs_int (get_or a j (pos 0) -ℤ get_or a existing (pos 0) +ℤ delta_x))
          (abs_int delta_x))) [
            | inl fits ↦ rw fits (
                find_replacement-Fits rounds (suc j) x a existing delta_x (some j) (omega arith)
                  (record {
                    is_free = ground arith;
                    in_range = omega arith;
                    closer = ground arith;
                  }))
            | inr misses ↦
                rw misses
                  (find_replacement-Fits rounds (suc j) x a existing delta_x found (omega arith) h)
          ]

-- Below the target's excess, whatever passes the test is larger than what it replaces.
fits-larger :
    (d delta_x : ℤ)
    → delta_x <ℤ pos 0
    → ltb_ℤ (abs_int (d +ℤ delta_x)) (abs_int delta_x) ≡ true
    → pos 0 <ℤ d
unfolding abs_int
fits-larger d delta_x h closer =
    ground (arith, +ℤ_parts d delta_x, neg_parts delta_x, neg_parts (d +ℤ delta_x))

module _ (a : List ℤ) (target : ℤ) where
  -- Where no element is negative and the selected sum is above the target, each replacement that the search finds selects a
  -- sum that is still farther above it.
  pub replace_moves_away :
      (x : BitMask) (existing j : ℕ)
      → AreNonnegative a
      → length x ≡ length a
      → delta x a target <ℤ pos 0
      → find_replacement (length a) 0 x a existing (delta x a target) none ≡ some j
      → delta (replace x existing (some j)) a target <ℤ delta x a target
  replace_moves_away x existing j h e over found =
      let fit : Fits x a existing (delta x a target) j =
        subst (AllFit x a existing (delta x a target)) found (
          find_replacement-Fits (length a) 0 x a existing (delta x a target) none (omega arith)
            tt) in
      let room : j < length x = rw e fit.in_range in
      let added = masked_sum-set-true x a j fit.is_free room in
      omega (
        int_laws,
        fits-larger (get_or a j (pos 0) -ℤ get_or a existing (pos 0)) (delta x a target) over
            fit.closer,
        ap pos_part added,
        ap neg_part added,
        masked_sum-set-false (set x j true) a existing h,
        delta_parts x a target,
        delta_parts (set (set x j true) existing false) a target,
      )

  length-replace :
      (x : BitMask) (existing : ℕ) (found : Option ℕ) → length (replace x existing found) ≡ length x
  length-replace x existing none = refl
  length-replace x existing (some j) =
      length-set (set x j true) existing false ∙ length-set x j true

  replace-le :
      (x : BitMask) (existing : ℕ) (found : Option ℕ)
      → AreNonnegative a
      → length x ≡ length a
      → delta x a target <ℤ pos 0
      → find_replacement (length a) 0 x a existing (delta x a target) none ≡ found
      → delta (replace x existing found) a target ≤ℤ delta x a target
  replace-le x existing none h e over found = omega arith
  replace-le x existing (some j) h e over found =
      omega (arith, replace_moves_away x existing j h e over found)

  below-zero : (d : ℤ) → d ≤ℤ pos 0 → eq_ℤ d (pos 0) ≡ false → d <ℤ pos 0
  below-zero d h k = ground arith

  -- Where no element is negative, the second phase never brings a sum that has reached the target closer to it: the distance
  -- stays or grows, and the sum stays at or above the target.
  pub improve_never_improves :
      (l : List ℕ) (x : BitMask)
      → AreNonnegative a
      → length x ≡ length a
      → delta x a target ≤ℤ pos 0
      → delta (improve l x a target) a target ≤ℤ delta x a target
  unfolding improve
  improve_never_improves [] x h e reached = omega arith
  improve_never_improves (existing ∷ rest) x h e reached =
      elim (Bool-cases (eq_ℤ (delta x a target) (pos 0))) [
        | inl exact ↦ rw exact (omega arith)
        | inr over ↦ rw over (
            omega (
              arith,
              kept over,
              improve_never_improves rest next h (length-replace x existing _ ∙ e)
                  (omega (arith, kept over)),
            ))
      ]
    where
      next : BitMask
      next = replace x existing (find_replacement (length a) 0 x a existing (delta x a target) none)

      kept : eq_ℤ (delta x a target) (pos 0) ≡ false → delta next a target ≤ℤ delta x a target
      kept over = replace-le x existing _ h e (below-zero (delta x a target) reached over) refl
