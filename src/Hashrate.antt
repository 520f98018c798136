-- ===== src/Hashrate.antt =====
-- hashrate/ema.go and hashrate/hashrate.go: the hash rate of a miner from the difficulties of its
-- shares. A time is in nanoseconds, and `now` the clock.
pub mod Merkle
use hash_router.Common.{
  ◌≡◌, arith, ℕ, suc, ◌+◌, ◌-◌, ◌*◌, ◌/◌, ◌%◌, ◌^◌, ◌<◌, List, [], ◌∷◌, if◌then◌else◌,
}
use hash_router.Common.Int.{ℤ, pos, negsuc, ◌-ℤ◌, neg}
use hash_router.Float.{Float64}

-- An exponential moving average.
pub record Counter (f : Float64) : Type 0 where
  pub last_value : f.Number
  pub last_time : ℤ
  pub avg_interval : ℤ

pub record Hashrate (f : Float64) : Type 0 where
  pub ema5m : Counter f
  pub ema30m : Counter f
  pub ema1h : Counter f
  pub total_hashes : ℕ

abbrev second : ℤ
second = pos (10 ^ 9)

-- uint64(i)
unfoldable pub to_uint64 : ℤ → ℕ
to_uint64 (pos n) = n % 2 ^ 64
to_uint64 (negsuc n) = (2 ^ 64 - suc (n % 2 ^ 64)) % 2 ^ 64

-- `HSToGHS`
unfoldable pub hs_to_ghs : ℕ → ℕ
hs_to_ghs hashrate_hs = hashrate_hs / 10 ^ 9

-- math.Exp
module _ (f : Float64) (exp : f.Number → f.Number) where
  -- `New`
  unfoldable pub new_counter : ℤ → Counter f
  new_counter avg_interval = record {
    last_value = f.const 0 1;
    last_time = pos 0;
    avg_interval = avg_interval;
  }

  unfoldable pub value_after : Counter f → ℤ → f.Number
  unfolding neg
  value_after c elapsed =
      if f.eq c.last_value (f.const 0 1)
      then f.const 0 1
      else f.mul c.last_value (exp (f.div (f.of_int (neg elapsed)) (f.of_int c.avg_interval)))

  unfoldable pub value : ℤ → Counter f → f.Number
  unfolding value_after ◌-ℤ◌
  value now c = value_after c (now -ℤ c.last_time)

  -- `LastValue`
  unfoldable pub get_last_value : Counter f → f.Number
  unfolding value_after
  get_last_value c = value_after c (pos 0)

  unfoldable pub value_per : ℤ → Counter f → ℤ → f.Number
  unfolding value
  value_per now c interval =
      f.div (f.mul (value now c) (f.of_int interval)) (f.of_int c.avg_interval)

  unfoldable pub last_value_per : Counter f → ℤ → f.Number
  unfolding value_after
  last_value_per c interval =
      f.div (f.mul (value_after c (pos 0)) (f.of_int interval)) (f.of_int c.avg_interval)

  -- `Add`
  unfoldable pub add_value : ℤ → Counter f → f.Number → Counter f
  unfolding value
  add_value now c v = record c { last_value = f.add (value now c) v; last_time = now }

  -- 5 and 30 minutes and 1 hour
  unfoldable pub new_hashrate : Hashrate f
  unfolding new_counter
  new_hashrate = record {
    ema5m = new_counter (pos (300 * 10 ^ 9));
    ema30m = new_counter (pos (1800 * 10 ^ 9));
    ema1h = new_counter (pos (3600 * 10 ^ 9));
    total_hashes = 0;
  }

  unfoldable pub on_submit : ℤ → Hashrate f → ℤ → Hashrate f
  unfolding add_value to_uint64
  on_submit now h diff = record {
    ema5m = add_value now h.ema5m (f.of_int diff);
    ema30m = add_value now h.ema30m (f.of_int diff);
    ema1h = add_value now h.ema1h (f.of_int diff);
    total_hashes = (h.total_hashes + to_uint64 diff) % 2 ^ 64;
  }

  -- The average is rounded to a whole number before it is multiplied by 2^32 in 64 bits.
  unfoldable pub average_submit_diff_to_ghs : f.Number → ℕ
  unfolding to_uint64 hs_to_ghs
  average_submit_diff_to_ghs average_per_second =
      hs_to_ghs (to_uint64 (f.to_int average_per_second) * 2 ^ 32 % 2 ^ 64)

  -- `GetHashrate5minAvgGHS`, which `GetHashrateGHS` is too
  unfoldable pub get_hashrate_5min_avg_ghs : ℤ → Hashrate f → ℕ
  unfolding average_submit_diff_to_ghs value_per
  get_hashrate_5min_avg_ghs now h = average_submit_diff_to_ghs (value_per now h.ema5m second)

  unfoldable pub get_hashrate_30min_avg_ghs : ℤ → Hashrate f → ℕ
  unfolding average_submit_diff_to_ghs value_per
  get_hashrate_30min_avg_ghs now h = average_submit_diff_to_ghs (value_per now h.ema30m second)

  unfoldable pub get_hashrate_1h_avg_ghs : ℤ → Hashrate f → ℕ
  unfolding average_submit_diff_to_ghs value_per
  get_hashrate_1h_avg_ghs now h = average_submit_diff_to_ghs (value_per now h.ema1h second)

  -- The shares of a miner, each with its time.
  unfoldable pub on_submits : Hashrate f → List (ℤ × ℕ) → Hashrate f
  unfolding on_submit
  on_submits h [] = h
  on_submits h ((now, diff) ∷ l) = on_submits (on_submit now h (pos diff)) l

  unfoldable pub sum_diffs : List (ℤ × ℕ) → ℕ
  sum_diffs [] = 0
  sum_diffs ((now, diff) ∷ l) = diff + sum_diffs l

  -- The counter of hashes is the sum of the difficulties, modulo 2^64.
  total_hashes-on_submits :
      (h : Hashrate f) (l : List (ℤ × ℕ))
      → (on_submits h l).total_hashes % 2 ^ 64 ≡ (h.total_hashes + sum_diffs l) % 2 ^ 64
  unfolding on_submits on_submit sum_diffs to_uint64
  total_hashes-on_submits h [] = ground arith
  total_hashes-on_submits h ((now, diff) ∷ l) =
      omega (arith, total_hashes-on_submits (on_submit now h (pos diff)) l)

  -- A rate is exact up to 1 GH/s while the average is below 2^32 a second, and wraps around from there.
  average_submit_diff_to_ghs-small :
      (x : f.Number) (n : ℕ)
      → f.to_int x ≡ pos n
      → n < 2 ^ 32
      → average_submit_diff_to_ghs x ≡ n * 2 ^ 32 / 10 ^ 9
  unfolding average_submit_diff_to_ghs to_uint64 hs_to_ghs
  average_submit_diff_to_ghs-small x n e h = ground (arith, e, h)
