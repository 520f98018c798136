-- ===== src/Contracts/SubsetSum/Reaches.antt =====
-- contractmanager/closest_subset_sum_rgli.go: the first phase of `trial` reaches the target
-- whenever all elements together do.
use mathlib.Core.List.{Mem, Perm, mem-cons, not-mem-nil, mem-cons_self, mem-cons_of_mem}
use mathlib.Core.List.Perm
use mathlib.Core.Logic.Or
use native.Mathlib.Decide.{ℕ_discrete}
use hash_router.Common.{
  ℕ, zero, suc, ◌+◌, ◌≤◌, ◌<◌, ◌≡◌, refl, ap, sym, subst, ◌∙◌, inl, inr, Bool, true, List, [], ◌∷◌,
  arith, length, set, Bool-cases,
}
use hash_router.Common.Int.{
  ℤ, pos, pos_part, neg_part, ◌≤ℤ◌, ltb_ℤ, int_laws, ltb_ℤ→le, ltb_ℤ→lt, lt→ltb_ℤ,
}
use hash_router.Contracts.SubsetSum.{
  BitMask, get_bit, delta, select, select_step, inc_range, inc_range_from, new_bit_mask,
}
use hash_router.Contracts.SubsetSum.Masks.{
  masked_sum, sum, AreNonnegative, delta_parts, masked_sum-le-set-true, masked_sum-all,
  length-new_bit_mask,
}

pub length-set : (x : BitMask) (j : ℕ) (b : Bool) → length (set x j b) ≡ length x
length-set [] j b = refl
length-set (c ∷ x) zero b = refl
length-set (c ∷ x) (suc j) b = ap suc (length-set x j b)

get_bit-set-true : (x : BitMask) (v j : ℕ) → get_bit x j ≡ true → get_bit (set x v true) j ≡ true
get_bit-set-true [] v j h = h
get_bit-set-true (c ∷ x) zero zero h = refl
get_bit-set-true (c ∷ x) zero (suc j) h = h
get_bit-set-true (c ∷ x) (suc v) zero h = h
get_bit-set-true (c ∷ x) (suc v) (suc j) h = get_bit-set-true x v j h

get_bit-set_self : (x : BitMask) (j : ℕ) → j < length x → get_bit (set x j true) j ≡ true
get_bit-set_self [] j h = elim h [ ]
get_bit-set_self (c ∷ x) zero h = refl
get_bit-set_self (c ∷ x) (suc j) h = get_bit-set_self x j (omega arith)

mem-inc_range_from : (i n j : ℕ) → i ≤ j → j < i + n → Mem j (inc_range_from i n)
unfolding inc_range_from
mem-inc_range_from i zero j h k = absurd (omega arith)
mem-inc_range_from i (suc n) j h k = elim (ℕ_discrete j i) [
  | yes e ↦ rw e mem-cons_self
  | no e ↦ mem-cons_of_mem i (mem-inc_range_from (suc i) n j (omega arith) (omega arith))
]

mem-inc_range : (j n : ℕ) → j < n → Mem j (inc_range n)
unfolding inc_range
mem-inc_range j n h = mem-inc_range_from 0 n j (omega arith) (omega arith)

Bool-prop : {b : Bool} → IsProp (b ≡ true)
Bool-prop = hlevel

module _ (a : List ℤ) (target : ℤ) where
  length-select_step : (x : BitMask) (v : ℕ) → length (select_step x v a target) ≡ length x
  unfolding select_step
  length-select_step x v = ground (arith, length-set x v true)

  select_step-keeps :
      (x : BitMask) (v j : ℕ) → get_bit x j ≡ true → get_bit (select_step x v a target) j ≡ true
  unfolding select_step
  select_step-keeps x v j h = ground (arith, get_bit-set-true x v j)

  masked_sum-le-select_step :
      (x : BitMask) (v : ℕ)
      → AreNonnegative a
      → masked_sum x a ≤ℤ masked_sum (select_step x v a target) a
  unfolding select_step
  masked_sum-le-select_step x v h = ground (arith, masked_sum-le-set-true x a v h)

  select_step-takes :
      (x : BitMask) (v : ℕ)
      → v < length x
      → ltb_ℤ (pos 0) (delta x a target) ≡ true
      → get_bit (select_step x v a target) v ≡ true
  unfolding select_step
  select_step-takes x v h over = rw over (get_bit-set_self x v h)

  pub length-select : (order : List ℕ) (x : BitMask) → length (select order x a target) ≡ length x
  unfolding select
  length-select [] x = refl
  length-select (v ∷ order) x =
      length-select order (select_step x v a target) ∙ length-select_step x v

  select-keeps :
      (order : List ℕ) (x : BitMask) (j : ℕ)
      → get_bit x j ≡ true
      → get_bit (select order x a target) j ≡ true
  unfolding select
  select-keeps [] x j h = h
  select-keeps (v ∷ order) x j h =
      select-keeps order (select_step x v a target) j (select_step-keeps x v j h)

  masked_sum-le-select :
      (order : List ℕ) (x : BitMask)
      → AreNonnegative a
      → masked_sum x a ≤ℤ masked_sum (select order x a target) a
  unfolding select
  masked_sum-le-select [] x h = omega arith
  masked_sum-le-select (v ∷ order) x h = omega (
    arith,
    masked_sum-le-select order (select_step x v a target) h,
    masked_sum-le-select_step x v h,
  )

  -- What is not reached at the end was not reached before.
  delta-before :
      (order : List ℕ) (x : BitMask)
      → AreNonnegative a
      → ltb_ℤ (pos 0) (delta (select order x a target) a target) ≡ true
      → ltb_ℤ (pos 0) (delta x a target) ≡ true
  delta-before order x h over = lt→ltb_ℤ (pos 0) (delta x a target) (
      omega (
        int_laws,
        ltb_ℤ→lt (pos 0) (delta (select order x a target) a target) over,
        delta_parts x a target,
        delta_parts (select order x a target) a target,
        masked_sum-le-select order x h,
      ))

  -- If the target is not reached at the end, every element of the order was taken.
  select-takes :
      (order : List ℕ) (x : BitMask) (j : ℕ)
      → AreNonnegative a
      → ltb_ℤ (pos 0) (delta (select order x a target) a target) ≡ true
      → Mem j order
      → j < length x
      → get_bit (select order x a target) j ≡ true
  unfolding select
  select-takes [] x j h over m k = absurd (not-mem-nil m)
  select-takes (v ∷ order) x j h over m k =
      Or.elim Bool-prop (mem-cons.0 m)
        (λ e.
          subst (λ w. get_bit (select order (select_step x v a target) a target) w ≡ true) (sym e)
            (select-keeps order (select_step x v a target) v (
              select_step-takes x v (subst (λ w. w < length x) e k)
                (delta-before (v ∷ order) x h over))))
        (λ m'.
          select-takes order (select_step x v a target) j h over m' (rw (length-select_step x v) k))

  -- If no element is negative and all together reach the target, the first phase reaches it, in whatever order it
  -- goes through them.
  pub select-reaches :
      (order : List ℕ)
      → AreNonnegative a
      → Perm order (inc_range (length a))
      → target ≤ℤ sum a
      → delta (select order (new_bit_mask (length a)) a target) a target ≤ℤ pos 0
  select-reaches order h p total = elim (Bool-cases (ltb_ℤ (pos 0) (delta chosen a target))) [
    | inr reached ↦ ltb_ℤ→le (pos 0) (delta chosen a target) reached
    | inl over ↦ omega (arith, delta_parts chosen a target, everything over)
  ]
    where
      chosen : BitMask
      chosen = select order (new_bit_mask (length a)) a target

      size : length (new_bit_mask (length a)) ≡ length a
      size = length-new_bit_mask (length a)

      everything :
          ltb_ℤ (pos 0) (delta chosen a target) ≡ true
          → (pos_part (masked_sum chosen a) ≡ pos_part (sum a))
            × (neg_part (masked_sum chosen a) ≡ neg_part (sum a))
      everything over =
          let all : masked_sum chosen a ≡ sum a =
            masked_sum-all chosen a (length-select order (new_bit_mask (length a)) ∙ size) (λ j k.
              select-takes order (new_bit_mask (length a)) j h over
                ((Perm.mem_iff p).1 (mem-inc_range j (length a) k)) (rw size k)) in
          (ap pos_part all, ap neg_part all)
