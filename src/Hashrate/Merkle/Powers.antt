-- ===== src/Hashrate/Merkle/Powers.antt =====
-- hashrate/utils.go: `nextPowerOfTwo` gives a power of two that is not below its argument.
use hash_router.Common.{
  false, ℕ, zero, suc, ◌+◌, ◌-◌, ◌*◌, ◌/◌, ◌%◌, ◌^◌, ◌≤◌, ◌<◌, ◌≡◌, refl, ap, ap₂, sym, subst, ◌∙◌,
  inl, inr, arith, ◌==◌, true, Bool-cases, ◌⊎◌,
}
use hash_router.Hashrate.Merkle.{bit_and, next_power_of_two}

-- What a logarithm to the base of two gives, rounded down.
abbrev pub IsLog2 : (ℕ → ℕ) → ℕ → Type 0
IsLog2 log2 n = (2 ^ log2 n ≤ n) × (n < 2 ^ (log2 n + 1))

parity : (n : ℕ) → (n % 2 ≡ 0) ⊎ (n % 2 ≡ 1)
parity n = ground arith

bit_and_self : (w n : ℕ) → n < 2 ^ w → bit_and w n n ≡ n
unfolding bit_and
bit_and_self zero n h = omega arith
bit_and_self (suc w) n h =
    let half : bit_and w (n / 2) (n / 2) ≡ n / 2 = bit_and_self w (n / 2) (omega arith) in
    elim (parity n) [
      | inl even ↦ rw (even, half) (omega (arith, even))
      | inr odd ↦ rw (odd, half) (omega (arith, odd))
    ]

-- A number that shares no bit with the one before it is a power of two.
bit_and_zero : (w n : ℕ) → 1 ≤ n → n < 2 ^ w → bit_and w n (n - 1) ≡ 0 → (k : ℕ) × (n ≡ 2 ^ k)
unfolding bit_and
bit_and_zero zero n p h e = absurd (omega arith)
bit_and_zero (suc w) n p h e =
    let shared : bit_and w (n / 2) ((n - 1) / 2) ≡ 0 = omega (arith, e) in
    elim (parity n) [
      | inl even ↦
          let before : (n - 1) / 2 ≡ n / 2 - 1 = omega (arith, even) in
          let rest : bit_and w (n / 2) (n / 2 - 1) ≡ 0 =
            subst (λ x. bit_and w (n / 2) x ≡ 0) before shared in
          let (k, half) = bit_and_zero w (n / 2) (omega (arith, even)) (omega arith) rest in
          (suc k, omega (arith, even, half))
      | inr odd ↦
          let before : (n - 1) / 2 ≡ n / 2 = omega (arith, odd) in
          let rest : n / 2 ≡ 0 =
            sym (bit_and_self w (n / 2) (omega arith))
            ∙ subst (λ x. bit_and w (n / 2) x ≡ 0) before shared in
          (0, omega (arith, odd, rest))
    ]

succ : (n : ℕ) → n + 1 ≡ suc n
succ n = omega arith

pow_suc : (n : ℕ) → 2 ^ suc n ≡ 2 * 2 ^ n
pow_suc n = omega arith

pow_add : (n : ℕ) → 2 ^ (n + 1) ≡ 2 * 2 ^ n
pow_add n = ap (λ m. 2 ^ m) (succ n) ∙ pow_suc n

==→eq : (a b : ℕ) → (a == b) ≡ true → a ≡ b
==→eq a b h = ground arith

eq→== : (a b : ℕ) → a ≡ b → (a == b) ≡ true
eq→== a b h = ground arith

bit_and_zeros : (w : ℕ) → bit_and w 0 0 ≡ 0
unfolding bit_and
bit_and_zeros zero = refl
bit_and_zeros (suc w) = omega (arith, bit_and_zeros w)

no_bits : (a b r : ℕ) → a ≡ 0 → r ≡ 0 → a * b + 2 * r ≡ 0
no_bits a b r ha hr = rw (ha, hr) (omega arith)

-- A power of two shares no bit with the number before it.
bit_and_pow : (w j : ℕ) → bit_and w (2 ^ j) (2 ^ j - 1) ≡ 0
unfolding bit_and
bit_and_pow zero j = refl
bit_and_pow (suc w) zero = omega (arith, bit_and_zeros w)
bit_and_pow (suc w) (suc j) =
    let even : 2 ^ suc j % 2 ≡ 0 = omega (arith, pow_suc j) in
    let half : 2 ^ suc j / 2 ≡ 2 ^ j = omega (arith, pow_suc j) in
    let before : (2 ^ suc j - 1) / 2 ≡ 2 ^ j - 1 = omega (arith, pow_suc j) in
    let rest : bit_and w (2 ^ suc j / 2) ((2 ^ suc j - 1) / 2) ≡ 0 =
      ap₂ (bit_and w) half before ∙ bit_and_pow w j in
    no_bits (2 ^ suc j % 2) ((2 ^ suc j - 1) % 2) _ even rest

le-cases : (a b : ℕ) → a ≤ b → (a ≡ b) ⊎ (a < b)
le-cases a b h = ground arith

true≢false : true ≡ false → ⊥
true≢false e = ground arith

-- The logarithm of a number that is no power of two is strict.
log2_strict : (n j : ℕ) → 2 ^ j ≤ n → (bit_and 64 n (n - 1) == 0) ≡ false → 2 ^ j < n
log2_strict n j low other = elim (le-cases (2 ^ j) n low) [
  | inr below ↦ below
  | inl same ↦
      let none_shared = subst (λ m. bit_and 64 m (m - 1) ≡ 0) same (bit_and_pow 64 j) in
      elim (true≢false (sym (eq→== (bit_and 64 n (n - 1)) 0 none_shared) ∙ other)) [ ]
]

pub next_power_of_two_bounds :
    (log2 : ℕ → ℕ) (n : ℕ)
    → IsLog2 log2 n
    → 1 ≤ n
    → n < 2 ^ 64
    → (k : ℕ) × (next_power_of_two log2 n ≡ 2 ^ k) × (n ≤ 2 ^ k) × (2 ^ k < 2 * n)
unfolding next_power_of_two
next_power_of_two_bounds log2 n is_log p h = elim (Bool-cases (bit_and 64 n (n - 1) == 0)) [
  | inl is_power ↦
      let (k, e) = bit_and_zero 64 n p h (==→eq (bit_and 64 n (n - 1)) 0 is_power) in
      rw is_power (k, e, omega (arith, e), omega (arith, e))
  | inr other ↦ rw other (
    log2 n + 1,
    refl,
    omega (arith, is_log.1),
    omega (arith, log2_strict n (log2 n) is_log.0 other, pow_add (log2 n)),
  )
]
