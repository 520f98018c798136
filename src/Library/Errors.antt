-- ===== src/Library/Errors.antt =====
-- lib/error.go: an error around another one, and what errors.Is finds in it. An error is told apart from
-- another one by its address, a number here.
use hash_router.Common.{
  ◌≡◌, arith, ℕ, Bool, true, false, ◌||◌, Option, none, some, List, [], ◌∷◌, ◌==◌,
}

pub data Error : Type 0 where
  plain : ℕ → Error
  -- customError
  custom : ℕ → Error → Error → Error

unfoldable pub address : Error → ℕ
address (plain a) = a
address (custom a parent child) = a

unfoldable pub is_same : Error → Error → Bool
unfolding address
is_same e target = address e == address target

-- `WrapError`, with the address of the new error
unfoldable pub wrap_error : ℕ → Error → Error → Error
wrap_error a parent child = custom a parent child

-- `Unwrap`
unfoldable pub unwrap : Error → Option Error
unwrap (plain a) = none
unwrap (custom a parent child) = some child

-- `Is`
unfoldable pub is_custom : Error → Error → Bool
unfolding is_same
is_custom (plain a) target = false
is_custom (custom a parent child) target = is_same target parent

-- errors.Is, which goes down by Unwrap
unfoldable pub errors_is : Error → Error → Bool
unfolding is_same is_custom
errors_is (plain a) target = is_same (plain a) target
errors_is (custom a parent child) target =
    is_same (custom a parent child) target
    || is_custom (custom a parent child) target
    || errors_is child target

-- Errors around an error, the outermost first, each with its address.
unfoldable pub wrap_all : List (ℕ × Error) → Error → Error
unfolding wrap_error
wrap_all [] e = e
wrap_all ((a, parent) ∷ l) e = wrap_error a parent (wrap_all l e)

-- Whether a parent of the chain is the error.
unfoldable pub has_parent : List (ℕ × Error) → Error → Bool
unfolding is_same
has_parent [] target = false
has_parent ((a, parent) ∷ l) target = is_same target parent || has_parent l target

-- Every parent of a chain of errors is found in it, and so is what is found in the error at its end.
wrap_all-errors_is :
    (l : List (ℕ × Error)) (e target : Error)
    → (has_parent l target || errors_is e target) ≡ true
    → errors_is (wrap_all l e) target ≡ true
unfolding wrap_all has_parent errors_is wrap_error
wrap_all-errors_is [] e target h = h
wrap_all-errors_is ((a, parent) ∷ l) e target h = ground (arith, h, wrap_all-errors_is l e target)
