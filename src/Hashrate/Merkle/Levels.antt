-- ===== src/Hashrate/Merkle/Levels.antt =====
-- hashrate/utils.go: taking the slots two by two from the front of a queue, and putting each parent
-- at its end, goes through the levels of the tree.
use hash_router.Common.{
  ℕ, zero, suc, ◌+◌, ◌*◌, ◌^◌, ◌≡◌, refl, ap, ap₂, sym, ◌∙◌, Option, none, List, [], ◌∷◌, ◌++◌,
  append-nil, append_assoc, arith,
}
use hash_router.Hashrate.Merkle.{parent}

-- 2 n, by clauses
abbrev pub twice : ℕ → ℕ
twice zero = zero
twice (suc n) = suc (suc (twice n))

pub twice_lem : (n : ℕ) → twice n ≡ 2 * n
twice_lem zero = refl
twice_lem (suc n) = omega (arith, twice_lem n)

abbrev pub tabulate : {A : Type 0} → ℕ → (ℕ → A) → List A
tabulate zero leaf = []
tabulate (suc n) leaf = leaf 0 ∷ tabulate n (λ i. leaf (suc i))

-- The leaves and the inner nodes of a tree of depth `k`.
abbrev pub leaves : ℕ → ℕ
leaves zero = 1
leaves (suc k) = twice (leaves k)

abbrev pub nodes : ℕ → ℕ
nodes zero = 0
nodes (suc k) = leaves k + nodes k

module _ {H : Type 0} (hash : H → H → H) where
  -- The root of the tree of depth `k` over the leaves 0, 1, 2 and so on: the parent of the roots
  -- of its two halves.
  unfoldable pub merkle_root : ℕ → (ℕ → Option H) → Option H
  unfolding parent
  merkle_root zero leaf = leaf 0
  merkle_root (suc k) leaf =
      parent hash (merkle_root k leaf) (merkle_root k (λ i. leaf (2 ^ k + i)))

  -- The level above the leaves.
  abbrev level : (ℕ → Option H) → ℕ → Option H
  level leaf i = parent hash (leaf (twice i)) (leaf (suc (twice i)))

  merkle_root_ext :
      (k : ℕ) (leaf leaf' : ℕ → Option H)
      → ((i : ℕ) → leaf i ≡ leaf' i)
      → merkle_root k leaf ≡ merkle_root k leaf'
  unfolding merkle_root
  merkle_root_ext zero leaf leaf' h = h 0
  merkle_root_ext (suc k) leaf leaf' h =
      ap₂ (parent hash) (merkle_root_ext k leaf leaf' h)
        (merkle_root_ext k _ _ (λ i. h (2 ^ k + i)))

  level_shift :
      (k : ℕ) (leaf : ℕ → Option H) (i : ℕ)
      → level (λ j. leaf (2 ^ suc k + j)) i ≡ level leaf (2 ^ k + i)
  level_shift k leaf i =
      ap₂ (λ a b. parent hash (leaf a) (leaf b)) (omega (arith, twice_lem i, twice_lem (2 ^ k + i)))
        (omega (arith, twice_lem i, twice_lem (2 ^ k + i)))

  merkle_root-level :
      (k : ℕ) (leaf : ℕ → Option H) → merkle_root (suc k) leaf ≡ merkle_root k (level leaf)
  unfolding merkle_root
  merkle_root-level zero leaf = refl
  merkle_root-level (suc k) leaf =
      ap₂ (parent hash) (merkle_root-level k leaf) (
        merkle_root-level k (λ i. leaf (2 ^ suc k + i))
        ∙ merkle_root_ext k _ _ (level_shift k leaf))

  -- The last slot after `m` rounds on a queue of `m + 1` slots.
  unfoldable pub queue_root : ℕ → List (Option H) → Option H
  queue_root zero [] = none
  queue_root zero (root ∷ q) = root
  queue_root (suc m) [] = none
  queue_root (suc m) (a ∷ []) = none
  queue_root (suc m) (a ∷ b ∷ q) = queue_root m (q ++ (parent hash a b ∷ []))

  suc-add : (n m : ℕ) → suc n + m ≡ suc (n + m)
  suc-add n m = omega arith

  queue_root-tabulate :
      (n m : ℕ) (leaf : ℕ → Option H) (q : List (Option H))
      → queue_root (n + m) (tabulate (twice n) leaf ++ q)
        ≡ queue_root m (q ++ tabulate n (level leaf))
  unfolding queue_root
  queue_root-tabulate zero m leaf q = ap₂ queue_root (omega arith) (sym (append-nil q))
  queue_root-tabulate (suc n) m leaf q =
      let rest = tabulate (twice n) (λ i. leaf (suc (suc i))) in
      let above = level leaf 0 in
      ap (λ x. queue_root x (leaf 0 ∷ leaf 1 ∷ (rest ++ q))) (suc-add n m)
      ∙ ap (queue_root (n + m)) (append_assoc rest q (above ∷ []))
      ∙ queue_root-tabulate n m (λ i. leaf (suc (suc i))) (q ++ (above ∷ []))
      ∙ ap (queue_root m) (append_assoc q (above ∷ []) _)

  pub queue_root-merkle_root :
      (k : ℕ) (leaf : ℕ → Option H)
      → queue_root (nodes k) (tabulate (leaves k) leaf) ≡ merkle_root k leaf
  unfolding queue_root merkle_root
  queue_root-merkle_root zero leaf = refl
  queue_root-merkle_root (suc k) leaf =
      ap (queue_root (nodes (suc k))) (sym (append-nil (tabulate (leaves (suc k)) leaf)))
      ∙ queue_root-tabulate (leaves k) (nodes k) leaf []
      ∙ queue_root-merkle_root k (level leaf)
      ∙ sym (merkle_root-level k leaf)
