-- ===== src/Examples/Merkle.antt =====
-- hashrate/utils.go on three branches. A hash is a number here, and the hash of a pair has the
-- digits of both.
use hash_router.Common.{
  ℕ, zero, suc, ◌+◌, ◌*◌, ◌/◌, ◌≡◌, refl, String, some, List, [], ◌∷◌, ltb, str_eq, if◌then◌else◌,
  Result, ok, err,
}
use hash_router.Hashrate.Merkle.{
  parent, merkle_round, merkle_loop, read_branches, next_power_of_two, bit_and,
  convert_merkle_branches_to_root,
}

abbrev join : ℕ → ℕ → ℕ
join a b = 10 * a + b

abbrev digit : String → ℕ
digit s = if str_eq s "a" then 1 else if str_eq s "b" then 2 else 3

abbrev read_digit : String → Result String ℕ
read_digit s = ok (digit s)

abbrev halvings : ℕ → ℕ → ℕ
halvings zero n = 0
halvings (suc fuel) n = let more = suc (halvings fuel (n / 2)) in if ltb n 2 then 0 else more

abbrev log2 : ℕ → ℕ
log2 n = halvings 64 n

abbrev three : List String
three = "a" ∷ "b" ∷ "c" ∷ []

three_root : convert_merkle_branches_to_root join read_digit log2 three ≡ some (ok (some 153))
unfolding convert_merkle_branches_to_root next_power_of_two bit_and read_branches merkle_loop
    merkle_round parent
three_root = refl

-- A text that is no hash ends the reading.
bad_branch :
    convert_merkle_branches_to_root join (λ s. if str_eq s "b" then err s else ok 1) log2 three
    ≡ some (err "b")
unfolding convert_merkle_branches_to_root next_power_of_two bit_and read_branches merkle_loop
    merkle_round parent
bad_branch = refl
