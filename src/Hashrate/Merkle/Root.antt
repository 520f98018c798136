-- ===== src/Hashrate/Merkle/Root.antt =====
-- hashrate/utils.go: `ConvertMerkleBranchesToRoot` gives the root of a binary tree.
use hash_router.Common.{ℕ, zero, suc, Option, none, some, List, [], ◌∷◌, String}

module _ {H : Type 0} (hash : H → H → H) (decode : String → H) where
  -- The leaves of the tree: the branches, and nothing after them.
  abbrev pub leaf_of : List String → ℕ → Option H
  leaf_of [] i = none
  leaf_of (branch ∷ rest) zero = some (decode branch)
  leaf_of (branch ∷ rest) (suc i) = leaf_of rest i
