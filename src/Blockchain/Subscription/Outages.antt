-- ===== src/Blockchain/Subscription/Outages.antt =====
-- blockchain/ethereum_gateway.go, `subscribeFilterLogsReconnect`: which outages the subscription
-- outlasts.
use hash_router.Common.{
  append-nil, append_assoc, ◌≡◌, refl, sym, ◌∙◌, arith, ℕ, zero, suc, ◌+◌, ◌≤◌, String, Bool,
  Option, some, List, [], ◌∷◌, ◌++◌, if◌then◌else◌, ltb, map, All,
}
use hash_router.Common.Int.{ℤ}
use hash_router.Blockchain.Retry.{linear_backoff}
use hash_router.Blockchain.Subscription.{
  Phase, connecting, reading, gave_up, Subscription, Event, subscribe_failed, subscribed,
  read_failed, log, new_subscription, fail, step, run, repeat,
}

run-append :
    (retry : Option (ℕ → ℤ × Bool)) (s : Subscription) (l r : List Event)
    → run retry s (l ++ r) ≡ run retry (run retry s l) r
unfolding run
run-append retry s [] r = refl
run-append retry s (e ∷ l) r = run-append retry (step retry s e) l r

-- An outage: how often the client refuses before it subscribes, and the logs that it then sends until
-- the next error.
unfoldable pub outages : List (ℕ × List String) → List Event
unfolding repeat
outages [] = []
outages ((n, l) ∷ os) =
    repeat n subscribe_failed ++ subscribed ∷ (map log l ++ read_failed ∷ outages os)

unfoldable pub all_logs : List (ℕ × List String) → List String
all_logs [] = []
all_logs ((n, l) ∷ os) = l ++ all_logs os

-- Each outage has at most as many failures.
abbrev pub IsWithin : ℕ → List (ℕ × List String) → Type 0
IsWithin k os = All (λ o. o.0 ≤ k) os

-- What the properties read of a state.
abbrev At : Subscription → Phase → ℕ → List String → Type 0
At s phase attempt logs = (s.phase ≡ phase) × (s.attempt ≡ attempt) × (s.logs ≡ logs)

module _ (retry : Option (ℕ → ℤ × Bool)) where
  step-log :
      (s : Subscription) (x : String) (a : ℕ) (l : List String)
      → At s reading a l
      → At (step retry s (log x)) reading a (l ++ x ∷ [])
  unfolding step
  step-log s x a l h = ground (arith, h)

  run-map_log :
      (s : Subscription) (xs : List String) (a : ℕ) (l : List String)
      → At s reading a l
      → At (run retry s (map log xs)) reading a (l ++ xs)
  unfolding run
  run-map_log s [] a l h = rw (append-nil l) h
  run-map_log s (x ∷ xs) a l h =
      rw (sym (append_assoc l (x ∷ []) xs))
        (run-map_log (step retry s (log x)) xs a (l ++ x ∷ []) (step-log s x a l h))

  step-subscribed :
      (s : Subscription) (a : ℕ) (l : List String)
      → At s connecting a l
      → At (step retry s subscribed) reading 0 l
  unfolding step
  step-subscribed s a l h = ground (arith, h)

  step-read_failed :
      (s : Subscription) (a : ℕ) (l : List String)
      → At s reading a l
      → At (step retry s read_failed) connecting a l
  unfolding step
  step-read_failed s a l h = ground (arith, h)

  step-gave_up :
      (s : Subscription) (x : Event) (a : ℕ) (l : List String)
      → At s gave_up a l
      → At (step retry s x) gave_up a l
  unfolding step
  step-gave_up s x a l h = ground (arith, h)

  -- Once it has given up, it never goes on.
  run-gave_up :
      (s : Subscription) (es : List Event) (a : ℕ) (l : List String)
      → At s gave_up a l
      → At (run retry s es) gave_up a l
  unfolding run
  run-gave_up s [] a l h = h
  run-gave_up s (x ∷ es) a l h = run-gave_up (step retry s x) es a l (step-gave_up s x a l h)

module _ (delay : ℤ) (max_attempts : ℕ) (max_delay : Option ℤ) where
  abbrev backoff : Option (ℕ → ℤ × Bool)
  backoff = some (linear_backoff delay (some max_attempts) max_delay)

  linear_backoff-done :
      (attempt : ℕ)
      → (linear_backoff delay (some max_attempts) max_delay attempt).1 ≡ ltb max_attempts attempt
  unfolding linear_backoff
  linear_backoff-done attempt = ground arith

  step-subscribe_failed :
      (s : Subscription) (a : ℕ) (l : List String)
      → At s connecting a l
      → At
          (step backoff s subscribe_failed)
          (if ltb max_attempts (a + 1) then gave_up else connecting)
          (a + 1)
          l
  unfolding step fail
  step-subscribe_failed s a l h = ground (arith, h, linear_backoff-done (a + 1))

  -- Failures that the backoff allows: it goes on connecting.
  run-repeat_le :
      (n : ℕ) (s : Subscription) (a : ℕ) (l : List String)
      → At s connecting a l
      → a + n ≤ max_attempts
      → At (run backoff s (repeat n subscribe_failed)) connecting (a + n) l
  unfolding run repeat
  run-repeat_le zero s a l h le = ground (arith, h)
  run-repeat_le (suc n) s a l h le =
      let one : At (step backoff s subscribe_failed) connecting (a + 1) l =
        ground (arith, step-subscribe_failed s a l h) in
      ground (arith, run-repeat_le n (step backoff s subscribe_failed) (a + 1) l one)

  run-outage :
      (s : Subscription) (n : ℕ) (xs : List String) (es : List Event) (l : List String)
      → At s connecting 0 l
      → n ≤ max_attempts
      → (s' : Subscription) × At s' connecting 0 (l ++ xs)
        × (run backoff s
              (repeat n subscribe_failed ++ subscribed ∷ (map log xs ++ read_failed ∷ es))
            ≡ run backoff s' es)
  unfolding run
  run-outage s n xs es l h le =
      let failed = run backoff s (repeat n subscribe_failed) in
      let refused : At failed connecting n l = ground (arith, run-repeat_le n s 0 l h) in
      let up = step backoff failed subscribed in
      let sent = run backoff up (map log xs) in
      (
        step backoff sent read_failed,
        step-read_failed backoff sent 0 (l ++ xs)
            (run-map_log backoff up xs 0 l (step-subscribed backoff failed n l refused)),
        run-append backoff s (repeat n subscribe_failed)
              (subscribed ∷ (map log xs ++ read_failed ∷ es))
            ∙ run-append backoff up (map log xs) (read_failed ∷ es),
      )

  run-outages :
      (s : Subscription) (os : List (ℕ × List String)) (l : List String)
      → At s connecting 0 l
      → IsWithin max_attempts os
      → At (run backoff s (outages os)) connecting 0 (l ++ all_logs os)
  unfolding run outages all_logs
  run-outages s [] l h within = rw (append-nil l) h
  run-outages s ((n, xs) ∷ os) l h (le, within) =
      let (s', there, e) = run-outage s n xs (outages os) l h le in
      rw (e, sym (append_assoc l xs (all_logs os))) (run-outages s' os (l ++ xs) there within)

  -- Outages of at most as many failures each as the backoff allows, however many: every log that the
  -- client sends reaches the subscriber, in order, and the subscription is being renewed.
  pub run-outages_within :
      (os : List (ℕ × List String))
      → IsWithin max_attempts os
      → let s = run backoff new_subscription (outages os) in
        (s.phase ≡ connecting) × (s.attempt ≡ 0) × (s.logs ≡ all_logs os)
  unfolding new_subscription
  run-outages_within os within = run-outages new_subscription os [] (refl, refl, refl) within

  -- One failure more than the backoff allows after such outages: whatever comes afterwards, the
  -- goroutine has returned, nothing more is sent to the subscriber, and its channel stays open.
  pub run-outages_beyond :
      (os : List (ℕ × List String)) (later : List Event)
      → IsWithin max_attempts os
      → let s =
          run backoff new_subscription
            (outages os ++ (repeat max_attempts subscribe_failed ++ subscribe_failed ∷ later)) in
        (s.phase ≡ gave_up) × (s.logs ≡ all_logs os)
  unfolding run
  run-outages_beyond os later within =
      let lasting = run backoff new_subscription (outages os) in
      let failed = run backoff lasting (repeat max_attempts subscribe_failed) in
      let refused : At failed connecting max_attempts (all_logs os) = ground (
        arith,
        run-repeat_le max_attempts lasting 0 (all_logs os) (run-outages_within os within),
      ) in
      let last : At (step backoff failed subscribe_failed) gave_up (max_attempts + 1)
          (all_logs os) =
        ground (arith, step-subscribe_failed failed max_attempts (all_logs os) refused) in
      let later_on =
        run-gave_up backoff (step backoff failed subscribe_failed) later (max_attempts + 1)
          (all_logs os) last in
      rw
        (
          run-append backoff new_subscription (outages os)
              (repeat max_attempts subscribe_failed ++ subscribe_failed ∷ later),
          run-append backoff lasting (repeat max_attempts subscribe_failed)
              (subscribe_failed ∷ later),
        )
        (later_on.0, later_on.2)
