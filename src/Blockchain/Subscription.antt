-- ===== src/Blockchain/Subscription.antt =====
-- blockchain/ethereum_gateway.go, `subscribeFilterLogsReconnect` with the subscription that
-- blockchain/ethereum_subscription.go makes of it: the goroutine as a step function over what it waits
-- for. A log is its text.
pub mod Outages
pub mod Unsubscribe
use hash_router.Common.{
  ◌≡◌, refl, ap, arith, ℕ, zero, suc, ◌+◌, ◌≤◌, ◌<◌, String, Bool, true, false, Option, none, some,
  List, [], ◌∷◌, ◌++◌, if◌then◌else◌, ltb, length,
}
use hash_router.Common.Int.{ℤ}
use hash_router.Blockchain.Retry.{linear_backoff}

-- Where the goroutine is. `gave_up`: it has returned with the channel of the subscriber open.
pub data Phase : Type 0 where
  connecting reading gave_up closed_logs : Phase

pub record Subscription : Type 0 where
  pub phase : Phase
  pub attempt : ℕ
  -- what was sent on the channel of the subscriber, from the first
  pub logs : List String
  -- how long it has slept, the last first
  pub sleeps : List ℤ
  -- The variable `sub` of the function, which Unsubscribe reads: whether it is set. The goroutine
  -- declares another one of that name.
  pub sub : Bool
  -- whether the subscription of the client was told to end
  pub unsubscribed : Bool

-- What the client answers and sends, the end of the context, and a call of Unsubscribe. The client
-- ends a subscription without an error when it is told to.
pub data Event : Type 0 where
  subscribe_failed subscribed read_failed ended context_done unsubscribe : Event
  log : String → Event

unfoldable pub new_subscription : Subscription
new_subscription = record {
  phase = connecting;
  attempt = 0;
  logs = [];
  sleeps = [];
  sub = false;
  unsubscribed = false;
}

-- An error of SubscribeFilterLogs. `none` is a nil retryFn, with which it goes on at once.
unfoldable pub fail : Option (ℕ → ℤ × Bool) → Subscription → Subscription
fail retry s =
    let failed : Subscription = record s { attempt = s.attempt + 1 } in
    elim retry [
      | none ↦ failed
      | some retry_fn ↦
          let (duration, done) = retry_fn failed.attempt in
          if done
          then record failed { phase = gave_up }
          else record failed { sleeps = duration ∷ s.sleeps }
    ]

-- The events of a phase; another event is left for a later one.
unfoldable pub step : Option (ℕ → ℤ × Bool) → Subscription → Event → Subscription
unfolding fail
step retry s unsubscribe = if s.sub then record s { unsubscribed = true } else s
step retry s subscribe_failed = elim s.phase [
  | connecting ↦ fail retry s
  | reading ↦ s
  | gave_up ↦ s
  | closed_logs ↦ s
]
step retry s subscribed = elim s.phase [
  | connecting ↦ record s { phase = reading; attempt = 0 }
  | reading ↦ s
  | gave_up ↦ s
  | closed_logs ↦ s
]
step retry s read_failed = elim s.phase [
  | connecting ↦ s
  | reading ↦ record s { phase = connecting }
  | gave_up ↦ s
  | closed_logs ↦ s
]
step retry s ended = elim s.phase [
  | connecting ↦ s
  | reading ↦ record s { phase = closed_logs }
  | gave_up ↦ s
  | closed_logs ↦ s
]
step retry s context_done = elim s.phase [
  | connecting ↦ s
  | reading ↦ record s { phase = closed_logs }
  | gave_up ↦ s
  | closed_logs ↦ s
]
step retry s (log msg) = elim s.phase [
  | connecting ↦ s
  | reading ↦ record s { logs = s.logs ++ msg ∷ [] }
  | gave_up ↦ s
  | closed_logs ↦ s
]

unfoldable pub run : Option (ℕ → ℤ × Bool) → Subscription → List Event → Subscription
unfolding step
run retry s [] = s
run retry s (e ∷ es) = run retry (step retry s e) es

unfoldable pub repeat : ℕ → Event → List Event
repeat zero e = []
repeat (suc n) e = e ∷ repeat n e
