-- ===== src/Contracts/SubsetSum/Masks.antt =====
-- contractmanager/bit_mask.go and `delta`: the sum that a mask selects, and how writes change it.
use hash_router.Common.{
  ℕ, zero, suc, ◌+◌, ◌<◌, ◌≡◌, refl, ap, ◌∙◌, true, false, List, [], ◌∷◌, arith, if◌then◌else◌,
  length, get_or, set, All,
}
use hash_router.Common.Int.{
  ℤ, pos, pos_part, neg_part, ◌+ℤ◌, ◌-ℤ◌, ◌≤ℤ◌, int_laws, -ℤ_parts, eq_of_parts,
}
use hash_router.Contracts.SubsetSum.{BitMask, get_bit, masked_sum_from, delta, new_bit_mask}

-- The sum of the values whose bit is set.
unfoldable pub masked_sum : BitMask → List ℤ → ℤ
masked_sum [] a = pos 0
masked_sum (b ∷ x) [] = pos 0
masked_sum (b ∷ x) (v ∷ a) = (if b then v else pos 0) +ℤ masked_sum x a

unfoldable pub sum : List ℤ → ℤ
sum [] = pos 0
sum (v ∷ a) = v +ℤ sum a

abbrev pub AreNonnegative : List ℤ → Type 0
AreNonnegative a = All (λ v. pos 0 ≤ℤ v) a

masked_sum_from-eq :
    (s : ℤ) (x : BitMask) (a : List ℤ) → masked_sum_from s x a ≡ s +ℤ masked_sum x a
unfolding masked_sum_from masked_sum
masked_sum_from-eq s [] a = omega int_laws
masked_sum_from-eq s (b ∷ x) [] = omega int_laws
masked_sum_from-eq s (true ∷ x) (v ∷ a) =
    masked_sum_from-eq (s +ℤ v) x a ∙ eq_of_parts _ _ (omega int_laws)
masked_sum_from-eq s (false ∷ x) (v ∷ a) =
    masked_sum_from-eq s x a ∙ eq_of_parts _ _ (omega int_laws)

-- `delta` is the target less the sum that the mask selects.
pub delta-eq : (x : BitMask) (a : List ℤ) (target : ℤ) → delta x a target ≡ target -ℤ masked_sum x a
unfolding delta
delta-eq x a target =
    ap (◌-ℤ◌ target) (masked_sum_from-eq (pos 0) x a ∙ eq_of_parts _ _ (omega int_laws))

pub masked_sum-nil : (x : BitMask) → masked_sum x [] ≡ pos 0
unfolding masked_sum
masked_sum-nil [] = refl
masked_sum-nil (b ∷ x) = refl

pub delta_parts :
    (x : BitMask) (a : List ℤ) (target : ℤ)
    → pos_part (delta x a target) + neg_part target + pos_part (masked_sum x a)
      ≡ neg_part (delta x a target) + pos_part target + neg_part (masked_sum x a)
delta_parts x a target = rw (delta-eq x a target) (-ℤ_parts target (masked_sum x a))

pub masked_sum-set-true :
    (x : BitMask) (a : List ℤ) (j : ℕ)
    → get_bit x j ≡ false
    → j < length x
    → masked_sum (set x j true) a ≡ masked_sum x a +ℤ get_or a j (pos 0)
unfolding masked_sum
masked_sum-set-true [] a j h k = elim k [ ]
masked_sum-set-true (b ∷ x) [] j h k =
    masked_sum-nil (set (b ∷ x) j true) ∙ eq_of_parts _ _ (omega int_laws)
masked_sum-set-true (true ∷ x) (v ∷ a) zero h k = cc
masked_sum-set-true (false ∷ x) (v ∷ a) zero h k = eq_of_parts _ _ (omega int_laws)
masked_sum-set-true (b ∷ x) (v ∷ a) (suc j) h k =
    let bit : ℤ = if b then v else pos 0 in
    ap (◌+ℤ◌ bit) (masked_sum-set-true x a j h (omega arith)) ∙ eq_of_parts _ _ (omega int_laws)

pub get_or_nonneg : (a : List ℤ) (j : ℕ) → AreNonnegative a → pos 0 ≤ℤ get_or a j (pos 0)
get_or_nonneg [] j h = omega arith
get_or_nonneg (v ∷ a) zero h = h.0
get_or_nonneg (v ∷ a) (suc j) h = get_or_nonneg a j h.1

-- Clearing a bit takes at most its value off.
pub masked_sum-set-false :
    (x : BitMask) (a : List ℤ) (j : ℕ)
    → AreNonnegative a
    → masked_sum x a ≤ℤ masked_sum (set x j false) a +ℤ get_or a j (pos 0)
unfolding masked_sum
masked_sum-set-false [] a j h = omega (int_laws, get_or_nonneg a j h)
masked_sum-set-false (b ∷ x) [] j h = rw (masked_sum-nil (set (b ∷ x) j false)) (omega int_laws)
masked_sum-set-false (true ∷ x) (v ∷ a) zero h = omega int_laws
masked_sum-set-false (false ∷ x) (v ∷ a) zero h = omega (int_laws, h.0)
masked_sum-set-false (b ∷ x) (v ∷ a) (suc j) h =
    let bit : ℤ = if b then v else pos 0 in omega (int_laws, masked_sum-set-false x a j h.1)

-- A mask with every bit set selects everything.
pub masked_sum-all :
    (x : BitMask) (a : List ℤ)
    → length x ≡ length a
    → ((j : ℕ) → j < length a → get_bit x j ≡ true)
    → masked_sum x a ≡ sum a
unfolding masked_sum sum
masked_sum-all [] [] e h = refl
masked_sum-all [] (v ∷ a) e h = absurd (omega arith)
masked_sum-all (b ∷ x) [] e h = absurd (omega arith)
masked_sum-all (b ∷ x) (v ∷ a) e h =
    rw (h 0 (omega arith))
      (ap (◌+ℤ◌ v) (masked_sum-all x a (omega arith) (λ j k. h (suc j) (omega arith))))

pub masked_sum-new : (n : ℕ) (a : List ℤ) → masked_sum (new_bit_mask n) a ≡ pos 0
unfolding masked_sum new_bit_mask
masked_sum-new zero a = refl
masked_sum-new (suc n) [] = refl
masked_sum-new (suc n) (v ∷ a) = rw (masked_sum-new n a) (unfold ◌+ℤ◌ in refl)

pub length-new_bit_mask : (n : ℕ) → length (new_bit_mask n) ≡ n
unfolding new_bit_mask
length-new_bit_mask zero = refl
length-new_bit_mask (suc n) = ap suc (length-new_bit_mask n)

-- Setting a bit takes nothing off.
pub masked_sum-le-set-true :
    (x : BitMask) (a : List ℤ) (j : ℕ)
    → AreNonnegative a
    → masked_sum x a ≤ℤ masked_sum (set x j true) a
unfolding masked_sum
masked_sum-le-set-true [] a j h = omega arith
masked_sum-le-set-true (b ∷ x) [] j h = rw (masked_sum-nil (set (b ∷ x) j true)) (omega arith)
masked_sum-le-set-true (true ∷ x) (v ∷ a) zero h = omega arith
masked_sum-le-set-true (false ∷ x) (v ∷ a) zero h = omega (int_laws, h.0)
masked_sum-le-set-true (b ∷ x) (v ∷ a) (suc j) h =
    let bit : ℤ = if b then v else pos 0 in omega (int_laws, masked_sum-le-set-true x a j h.1)
