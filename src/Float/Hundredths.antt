-- ===== src/Float/Hundredths.antt =====
-- An implementation of `Float64` by hundredths: no code of the repository. It shows that the
-- hypotheses `IsExact` and `IsOrdered` can be met, and it runs the definitions in tests.
use hash_router.Common.{◌*◌, ◌/◌, ◌≡◌, refl, true, false, arith, if◌then◌else◌}
use hash_router.Common.Int.{
  ℤ, pos, ◌+ℤ◌, ◌-ℤ◌, ◌*ℤ◌, ◌/ℤ◌, neg, ltb_ℤ, eq_ℤ, +ℤ_parts, -ℤ_parts, eq_of_parts,
}
use hash_router.Float.{Float64, IsExact, IsOrdered}

abbrev pub hundredths : Float64
hundredths = record {
  Number = ℤ;
  of_int = λ i. i *ℤ pos 100;
  to_int = λ x. x /ℤ pos 100;
  const = λ a b. pos (a * 100 / b);
  add = ◌+ℤ◌;
  sub = ◌-ℤ◌;
  mul = λ a b. a *ℤ b /ℤ pos 100;
  div = λ a b. a *ℤ pos 100 /ℤ b;
  abs = λ a. if ltb_ℤ a (pos 0) then neg a else a;
  lt = ltb_ℤ;
  eq = eq_ℤ;
}

lt-sub : (a b c : ℤ) → ltb_ℤ (a -ℤ b) c ≡ ltb_ℤ a (c +ℤ b)
lt-sub a b c = ground (arith, +ℤ_parts c b, -ℤ_parts a b)

lt-add : (a b c : ℤ) → ltb_ℤ (a +ℤ c) (b +ℤ c) ≡ ltb_ℤ a b
lt-add a b c = ground (arith, +ℤ_parts a c, +ℤ_parts b c)

zero-add : (a : ℤ) → pos 0 +ℤ a ≡ a
zero-add a = omega (arith, +ℤ_parts, eq_of_parts)

add_comm : (a b : ℤ) → a +ℤ b ≡ b +ℤ a
add_comm a b = omega (arith, +ℤ_parts, eq_of_parts)

add_assoc : (a b c : ℤ) → a +ℤ b +ℤ c ≡ a +ℤ (b +ℤ c)
add_assoc a b c = omega (arith, +ℤ_parts, eq_of_parts)

add-sub : (a b : ℤ) → a -ℤ b +ℤ b ≡ a
add-sub a b = omega (arith, +ℤ_parts, -ℤ_parts, eq_of_parts)

eq_of_eq : (a b : ℤ) → eq_ℤ a b ≡ true → a ≡ b
eq_of_eq a b h = eq_of_parts a b (ground arith)

lt_of_lt_of_le : (a b c : ℤ) → ltb_ℤ a b ≡ true → ltb_ℤ c b ≡ false → ltb_ℤ a c ≡ true
lt_of_lt_of_le a b c h k = ground arith

pub hundredths-IsExact : IsExact hundredths
hundredths-IsExact = record {
  zero-add = zero-add;
  add_comm = add_comm;
  add_assoc = add_assoc;
  lt-sub = lt-sub;
  lt-add = lt-add;
  add-sub = add-sub;
  eq_of_eq = eq_of_eq;
  lt_of_lt_of_le = lt_of_lt_of_le;
}

lt_irrefl : (a : ℤ) → ltb_ℤ a a ≡ false
lt_irrefl a = ground arith

lt_trans : (a b c : ℤ) → ltb_ℤ a b ≡ true → ltb_ℤ b c ≡ true → ltb_ℤ a c ≡ true
lt_trans a b c h k = ground arith

lt_of_eq : (a b c : ℤ) → eq_ℤ a b ≡ true → ltb_ℤ a c ≡ ltb_ℤ b c
lt_of_eq a b c h = ground arith

pub hundredths-IsOrdered : IsOrdered hundredths
hundredths-IsOrdered = record {
  lt_irrefl = lt_irrefl;
  lt_trans = lt_trans;
  lt_of_eq = lt_of_eq;
  zero-lt-min = refl;
  min-lt-max = refl;
  max-lt-one = refl;
}
