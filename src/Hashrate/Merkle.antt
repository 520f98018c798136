-- ===== src/Hashrate/Merkle.antt =====
-- hashrate/utils.go: the Merkle root of the branches of a job. The hashes, their text and the hash
-- of a pair are those of the chainhash and blockchain packages: parameters. A tree is kept in one
-- array, its leaves first and every node after its children; a slot is `none` where the array has a
-- nil pointer.
pub mod Levels
pub mod Root
pub mod Slots
pub mod Powers
use hash_router.Common.{
  ℕ, zero, suc, ◌+◌, ◌-◌, ◌*◌, ◌/◌, ◌%◌, ◌^◌, ltb, ◌==◌, String, Option, none, some, List, [], ◌∷◌,
  length, get_elem?, if◌then◌else◌, Result, ok, err,
}

-- The bits that two numbers of `w` bits share, `a & b`.
unfoldable pub bit_and : ℕ → ℕ → ℕ → ℕ
bit_and zero a b = 0
bit_and (suc w) a b = (a % 2) * (b % 2) + 2 * bit_and w (a / 2) (b / 2)

-- `log2 n` is `uint(math.Log2(float64(n)))`.
unfoldable pub next_power_of_two : (ℕ → ℕ) → ℕ → ℕ
next_power_of_two log2 n = if bit_and 64 n (n - 1) == 0 then n else 2 ^ (log2 n + 1)

abbrev pub replicate : {A : Type 0} → ℕ → A → List A
replicate zero a = []
replicate (suc n) a = a ∷ replicate n a

-- A write to an array; `none` is the panic of an index out of range.
abbrev pub write_at : {A : Type 0} → List A → ℕ → A → Option (List A)
write_at [] i v = none
write_at (x ∷ xs) zero v = some (v ∷ xs)
write_at (x ∷ xs) (suc i) v = elim (write_at xs i v) [ none ↦ none | some ys ↦ some (x ∷ ys) ]

module _ {H : Type 0} (hash_merkle_branches : H → H → H) where
  -- The switch of the loop.
  unfoldable pub parent : Option H → Option H → Option H
  parent none right = none
  parent (some left) none = some (hash_merkle_branches left left)
  parent (some left) (some right) = some (hash_merkle_branches left right)

  -- A round of the loop: the two slots at `i` give the slot at `offset`.
  unfoldable pub merkle_round : ℕ → ℕ → List (Option H) → Option (List (Option H))
  merkle_round i offset slots = elim (get_elem? slots i) [
    | none ↦ none
    | some left ↦ elim (get_elem? slots (suc i)) [
      | none ↦ none
      | some right ↦ write_at slots offset (parent left right)
    ]
  ]

  -- The loop while `i` is below `last`, on fuel.
  unfoldable pub merkle_loop : ℕ → ℕ → ℕ → ℕ → List (Option H) → Option (List (Option H))
  merkle_loop zero last i offset slots = none
  merkle_loop (suc fuel) last i offset slots =
      let next : Option (List (Option H)) = elim (merkle_round i offset slots) [
        | none ↦ none
        | some slots' ↦ merkle_loop fuel last (suc (suc i)) (suc offset) slots'
      ] in
      if ltb i last then next else some slots

  abbrev pub root_slot : {E : Type 0} → Option (List (Option H)) → Option (Result E (Option H))
  root_slot none = none
  root_slot (some slots) = elim (get_elem? slots (length slots - 1)) [
    | none ↦ none
    | some root ↦ some (ok root)
  ]

  -- What follows the reading, in an array of two times `next_pot` slots less one.
  abbrev pub hash_up :
      {E : Type 0} → ℕ → Option (Result E (List (Option H))) → Option (Result E (Option H))
  hash_up next_pot none = none
  hash_up next_pot (some (err e)) = some (err e)
  hash_up next_pot (some (ok slots)) =
      let array_size = next_pot * 2 - 1 in
      root_slot (merkle_loop array_size (array_size - 1) 0 next_pot slots)

  module _ {E : Type 0} (new_hash_from_str : String → Result E H) where
    -- The loop that reads the branches.
    unfoldable pub read_branches :
        ℕ → List (Option H) → List String → Option (Result E (List (Option H)))
    read_branches i slots [] = some (ok slots)
    read_branches i slots (branch ∷ rest) = elim (new_hash_from_str branch) [
      | err e ↦ some (err e)
      | ok hash ↦ elim (write_at slots i (some hash)) [
        | none ↦ none
        | some slots' ↦ read_branches (suc i) slots' rest
      ]
    ]

    -- `none` is a panic or a loop out of fuel; the root of no branches is a nil pointer.
    unfoldable pub convert_merkle_branches_to_root :
        (ℕ → ℕ) → List String → Option (Result E (Option H))
    unfolding next_power_of_two merkle_loop read_branches
    convert_merkle_branches_to_root log2 [] = some (ok none)
    convert_merkle_branches_to_root log2 (branch ∷ rest) =
        let next_pot = next_power_of_two log2 (length (branch ∷ rest)) in
        hash_up next_pot (read_branches 0 (replicate (next_pot * 2 - 1) none) (branch ∷ rest))
