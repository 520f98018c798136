-- ===== src/Blockchain/Retry.antt =====
-- lib/retry.go: how long to wait before the next attempt. A duration is an int64 of nanoseconds.
use hash_router.Common.{
  ◌≡◌, arith, ℕ, ◌+◌, ◌-◌, ◌^◌, ◌%◌, ◌<◌, Bool, true, false, Option, none, some, ltb, if◌then◌else◌,
}
use hash_router.Common.Int.{ℤ, pos, pos_part, neg_part, ◌*ℤ◌, ltb_ℤ, neg}

-- An int64, which wraps around.
unfoldable pub wrap_int64 : ℤ → ℤ
unfolding neg
wrap_int64 a =
    let n = (pos_part a % 2 ^ 64 + (2 ^ 64 - neg_part a % 2 ^ 64)) % 2 ^ 64 in
    if ltb n (2 ^ 63) then pos n else neg (pos (2 ^ 64 - n))

-- The function that `NewLinearBackoff` returns: the delay and whether it was the last attempt.
unfoldable pub linear_backoff : ℤ → Option ℕ → Option ℤ → ℕ → ℤ × Bool
unfolding wrap_int64 ◌*ℤ◌
linear_backoff delay max_attempts max_delay attempt =
    let this_delay = wrap_int64 (pos attempt *ℤ delay) in
    let waits : ℤ × Bool = elim max_delay [
      | none ↦ (this_delay, false)
      | some d ↦ if ltb_ℤ d this_delay then (d, false) else (this_delay, false)
    ] in
    elim max_attempts [ none ↦ waits | some n ↦ if ltb n attempt then (pos 0, true) else waits ]

-- A product of an attempt and a delay that an int64 holds is not changed.
pub wrap_int64-small : (n : ℕ) → n < 2 ^ 63 → wrap_int64 (pos n) ≡ pos n
unfolding wrap_int64
wrap_int64-small n h = ground arith

-- No wait is above the maximum, and with it none overflows: an attempt that is not the last waits
-- for its multiple of the delay, or for the maximum.
pub linear_backoff-le :
    (delay max_delay attempt : ℕ) (max_attempts : Option ℕ)
    → let (wait, done) = linear_backoff (pos delay) max_attempts (some (pos max_delay)) attempt in
      ltb_ℤ (pos max_delay) wait ≡ false
unfolding linear_backoff
linear_backoff-le delay max_delay attempt max_attempts = ground arith
