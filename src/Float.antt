-- ===== src/Float.antt =====
-- Go's `float64`: no code of the repository. Every component that computes with fractions takes an
-- implementation of this record as a parameter, so its definitions and theorems hold for the
-- rounding arithmetic of the machine. Where a theorem needs that no rounding happens it says so by
-- a hypothesis `IsExact`.
pub mod Hundredths
use hash_router.Common.{◌≡◌, Bool, true, false, ℕ, ◌+◌, ◌*◌, ◌/◌, arith}
use hash_router.Common.Int.{
  ℤ, pos, ◌+ℤ◌, ◌-ℤ◌, ◌*ℤ◌, ◌/ℤ◌, ltb_ℤ, eq_ℤ, pos_part, neg_part, +ℤ_parts, -ℤ_parts, eq_of_parts,
}

pub record Float64 : Type 1 where
  pub Number : Type 0
  -- float64(i) and int(x)
  pub of_int : ℤ → Number
  pub to_int : Number → ℤ
  -- the constant a / b
  pub const : ℕ → ℕ → Number
  pub add : Number → Number → Number
  pub sub : Number → Number → Number
  pub mul : Number → Number → Number
  pub div : Number → Number → Number
  -- math.Abs
  pub abs : Number → Number
  -- a < b and a == b
  pub lt : Number → Number → Bool
  pub eq : Number → Number → Bool

-- Sums are exact and the order is that of the numbers.
pub record IsExact (f : Float64) : Type 0 where
  pub zero-add : (a : f.Number) → f.add (f.const 0 1) a ≡ a
  pub add_comm : (a b : f.Number) → f.add a b ≡ f.add b a
  pub add_assoc : (a b c : f.Number) → f.add (f.add a b) c ≡ f.add a (f.add b c)
  pub lt-sub : (a b c : f.Number) → f.lt (f.sub a b) c ≡ f.lt a (f.add c b)
  pub lt-add : (a b c : f.Number) → f.lt (f.add a c) (f.add b c) ≡ f.lt a b
  pub add-sub : (a b : f.Number) → f.add (f.sub a b) b ≡ a
  pub eq_of_eq : (a b : f.Number) → f.eq a b ≡ true → a ≡ b
  -- a < b ≤ c
  pub lt_of_lt_of_le : (a b c : f.Number) → f.lt a b ≡ true → f.lt c b ≡ false → f.lt a c ≡ true

-- What float64 guarantees of its order, for the constants that the program compares with. It holds
-- of NaN too, which is neither below nor equal to anything.
pub record IsOrdered (f : Float64) : Type 0 where
  pub lt_irrefl : (a : f.Number) → f.lt a a ≡ false
  pub lt_trans : (a b c : f.Number) → f.lt a b ≡ true → f.lt b c ≡ true → f.lt a c ≡ true
  pub lt_of_eq : (a b c : f.Number) → f.eq a b ≡ true → f.lt a c ≡ f.lt b c
  pub zero-lt-min : f.lt (f.const 0 1) (f.const 5 100) ≡ true
  pub min-lt-max : f.lt (f.const 5 100) (f.const 95 100) ≡ true
  pub max-lt-one : f.lt (f.const 95 100) (f.const 1 1) ≡ true
