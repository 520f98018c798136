-- ===== src/Protocol/MinerModel/Relay.antt =====
-- protocol/stratum_v1_miner_model.go, the two goroutines of `Run` after the handshake, beside that of the
-- pool connection: what goes between a miner and one pool, as steps in any order.
use hash_router.Common.{
  ◌≡◌, refl, sym, ◌∙◌, arith, String, Bool, true, false, ◌&&◌, none, some, List, [], ◌∷◌, ◌++◌, map,
  if◌then◌else◌, ltb, length, append_assoc, append-nil, subst, inl, inr, ◌⊎◌,
}
use hash_router.Common.Int.{ℤ}
use hash_router.Protocol.PoolConn.{
  Message, submit, unparsed, PoolConn, receive, read, read_interceptor, send_to_read_ch,
  write_interceptor, register_result_handler, channel_size,
}
use hash_router.Protocol.MinerModel.{MinerModel, pool_interceptor, miner_interceptor}

pub record Relay : Type 0 where
  pub model : MinerModel
  pub conn : PoolConn
  -- what was written to the miner and to the pool, from the first
  pub to_miner : List Message
  pub to_pool : List Message
  -- The goroutine from the pool to the miner has returned with an error.
  pub ended : Bool

-- A line of the pool, a round of the goroutine from the pool to the miner, and one of the other on a
-- message of the miner. Writes are taken to succeed.
pub data Round : Type 0 where
  arrives : Message → Round
  to_miner_round : Round
  to_pool_round : Message → Round

unfoldable pub is_unparsed : Message → Bool
is_unparsed unparsed = true
is_unparsed m = false

module _ (sprint : ℤ → String) where
  -- A line for which the channel has no room waits. `Write` of the miner connection refuses a nil
  -- message.
  unfoldable pub relay_round : Relay → Round → Relay
  unfolding receive read pool_interceptor miner_interceptor write_interceptor is_unparsed
  relay_round r (arrives m) = elim (receive sprint r.conn m) [
    | none ↦ r
    | some x ↦ record r { conn = x.0 }
  ]
  relay_round r to_miner_round = if r.ended then r else elim (read r.conn) [
    | none ↦ r
    | some x ↦ if is_unparsed x.0 then record r { conn = x.1; ended = true } else record r {
      model = pool_interceptor r.model x.0;
      conn = x.1;
      to_miner = r.to_miner ++ x.0 ∷ [];
    }
  ]
  relay_round r (to_pool_round m) =
      let conn : PoolConn = miner_interceptor sprint r.conn m in
      record r { conn = conn; to_pool = r.to_pool ++ write_interceptor conn m ∷ [] }

  unfoldable pub relay_rounds : Relay → List Round → Relay
  unfolding relay_round
  relay_rounds r [] = r
  relay_rounds r (e ∷ es) = relay_rounds (relay_round r e) es

  -- The messages of the pool that the connection emits: those that come while it is read and while its
  -- channel has room.
  unfoldable pub emitted : Relay → List Round → List Message
  unfolding relay_round
  emitted r [] = []
  emitted r (arrives m ∷ es) =
      let later = emitted (relay_round r (arrives m)) es in
      if r.conn.is_reading && ltb (length r.conn.msg_ch) channel_size then m ∷ later else later
  emitted r (to_miner_round ∷ es) = emitted (relay_round r to_miner_round) es
  emitted r (to_pool_round m ∷ es) = emitted (relay_round r (to_pool_round m)) es

-- The messages of the miner.
unfoldable pub from_miner : List Round → List Message
from_miner [] = []
from_miner (arrives m ∷ es) = from_miner es
from_miner (to_miner_round ∷ es) = from_miner es
from_miner (to_pool_round m ∷ es) = m ∷ from_miner es

-- A message as it is written to the pool.
unfoldable pub named : String → Message → Message
named username (submit id worker) = submit id username
named username m = m

-- Every line of the pool is a known message.
unfoldable pub known : List Round → Bool
unfolding is_unparsed
known [] = true
known (arrives m ∷ es) = if is_unparsed m then false else known es
known (e ∷ es) = known es

unfoldable pub all_known : List Message → Bool
unfolding is_unparsed
all_known [] = true
all_known (m ∷ l) = if is_unparsed m then false else all_known l

known-arrives :
    (m : Message) (es : List Round)
    → known (arrives m ∷ es) ≡ true
    → (is_unparsed m ≡ false) × (known es ≡ true)
unfolding known
known-arrives m es k = ground (arith, k)

if-append :
    (b : Bool) (l : List Message) (m : Message) (r : List Message)
    → (if b then l ++ m ∷ [] else l) ++ r ≡ l ++ (if b then m ∷ r else r)
if-append true l m r = append_assoc l (m ∷ []) r
if-append false l m r = refl

list_cases :
    (l : List Message) → (l ≡ []) ⊎ ((m : Message) × ((rest : List Message) × (l ≡ m ∷ rest)))
list_cases [] = inl refl
list_cases (m ∷ rest) = inr (m, (rest, refl))

module _ (sprint : ℤ → String) where
  -- What the relay has of the messages of the pool, and in the channel.
  abbrev Flows : Relay → List Message → Type 0
  Flows r l =
      (r.to_miner ++ r.conn.msg_ch ≡ l) × (r.ended ≡ false) × (all_known r.conn.msg_ch ≡ true)

  all_known-append :
      (l : List Message) (m : Message)
      → all_known l ≡ true
      → is_unparsed m ≡ false
      → all_known (l ++ m ∷ []) ≡ true
  unfolding all_known
  all_known-append [] m h k = ground (arith, h, k)
  all_known-append (x ∷ l) m h k = ground (arith, h, all_known-append l m)

  arrives-Flows :
      (r : Relay) (m : Message) (l : List Message)
      → Flows r l
      → is_unparsed m ≡ false
      → Flows
          (relay_round sprint r (arrives m))
          (if r.conn.is_reading && ltb (length r.conn.msg_ch) channel_size then l ++ m ∷ [] else l)
  unfolding relay_round receive read_interceptor send_to_read_ch
  arrives-Flows r m l h k = ground (
    arith,
    h,
    k,
    all_known-append r.conn.msg_ch m,
    append_assoc r.to_miner r.conn.msg_ch (m ∷ []),
  )

  to_miner_round-Flows :
      (r : Relay) (l : List Message) → Flows r l → Flows (relay_round sprint r to_miner_round) l
  unfolding relay_round read all_known
  to_miner_round-Flows r l h = elim (list_cases r.conn.msg_ch) [
    | inl empty ↦ ground (arith, h, empty)
    | inr (m, (rest, there)) ↦ ground (arith, h, there, append_assoc r.to_miner (m ∷ []) rest)
  ]

  to_pool_round-Flows :
      (r : Relay) (m : Message) (l : List Message)
      → Flows r l
      → Flows (relay_round sprint r (to_pool_round m)) l
  unfolding relay_round miner_interceptor register_result_handler
  to_pool_round-Flows r m l h = ground (arith, h)

  relay_rounds-Flows :
      (r : Relay) (es : List Round) (l : List Message)
      → Flows r l
      → known es ≡ true
      → Flows (relay_rounds sprint r es) (l ++ emitted sprint r es)
  unfolding relay_rounds emitted known
  relay_rounds-Flows r [] l h k = rw (append-nil l) h
  relay_rounds-Flows r (arrives m ∷ es) l h k =
      let r' = relay_round sprint r (arrives m) in
      let emits = r.conn.is_reading && ltb (length r.conn.msg_ch) channel_size in
      let is_known : (is_unparsed m ≡ false) × (known es ≡ true) = known-arrives m es k in
      subst (λ x. Flows (relay_rounds sprint r' es) x) (if-append emits l m (emitted sprint r' es))
        (relay_rounds-Flows r' es (if emits then l ++ m ∷ [] else l)
          (arrives-Flows r m l h is_known.0) is_known.1)
  relay_rounds-Flows r (to_miner_round ∷ es) l h k =
      relay_rounds-Flows (relay_round sprint r to_miner_round) es l (to_miner_round-Flows r l h) k
  relay_rounds-Flows r (to_pool_round m ∷ es) l h k =
      relay_rounds-Flows (relay_round sprint r (to_pool_round m)) es l (to_pool_round-Flows r m l h)
        k

  relay_round-username :
      (r : Relay) (e : Round) → (relay_round sprint r e).conn.username ≡ r.conn.username
  unfolding relay_round receive read_interceptor send_to_read_ch read miner_interceptor
      register_result_handler
  relay_round-username r (arrives m) = ground arith
  relay_round-username r to_miner_round = ground arith
  relay_round-username r (to_pool_round m) = ground arith

  relay_round-to_pool :
      (r : Relay) (e : Round)
      → (relay_round sprint r e).to_pool
        ≡ r.to_pool ++ map (named r.conn.username) (from_miner (e ∷ []))
  unfolding relay_round read from_miner named write_interceptor miner_interceptor
      register_result_handler
  relay_round-to_pool r (arrives m) = ground (arith, append-nil r.to_pool)
  relay_round-to_pool r to_miner_round = ground (arith, append-nil r.to_pool)
  relay_round-to_pool r (to_pool_round m) = ground arith

  relay_rounds-to_pool :
      (r : Relay) (es : List Round)
      → (relay_rounds sprint r es).to_pool
        ≡ r.to_pool ++ map (named r.conn.username) (from_miner es)
  unfolding relay_rounds from_miner
  relay_rounds-to_pool r [] = sym (append-nil r.to_pool)
  relay_rounds-to_pool r (arrives m ∷ es) = ground (
    arith,
    relay_rounds-to_pool (relay_round sprint r (arrives m)) es,
    relay_round-username r (arrives m),
    relay_round-to_pool r (arrives m),
  )
  relay_rounds-to_pool r (to_miner_round ∷ es) = ground (
    arith,
    relay_rounds-to_pool (relay_round sprint r to_miner_round) es,
    relay_round-username r to_miner_round,
    relay_round-to_pool r to_miner_round,
  )
  relay_rounds-to_pool r (to_pool_round m ∷ es) = ground (
    arith,
    relay_rounds-to_pool (relay_round sprint r (to_pool_round m)) es,
    relay_round-username r (to_pool_round m),
    relay_round-to_pool r (to_pool_round m),
    append_assoc r.to_pool (named r.conn.username m ∷ [])
        (map (named r.conn.username) (from_miner es)),
  )

  -- In whatever order the rounds come, as long as the pool sends only messages that are known: the
  -- messages of the pool that were emitted are those written to the miner and then those in the channel,
  -- none lost, doubled or overtaken, and the relay goes on; the pool has got all messages of the miner in
  -- order, each submit under the user of the connection.
  pub relay_rounds-in_order :
      (r : Relay) (es : List Round)
      → r.ended ≡ false
      → all_known r.conn.msg_ch ≡ true
      → known es ≡ true
      → let r' = relay_rounds sprint r es in
        (r'.to_miner ++ r'.conn.msg_ch ≡ r.to_miner ++ r.conn.msg_ch ++ emitted sprint r es)
        × (r'.ended ≡ false)
        × (r'.to_pool ≡ r.to_pool ++ map (named r.conn.username) (from_miner es))
  relay_rounds-in_order r es going all k =
      let flows = relay_rounds-Flows r es (r.to_miner ++ r.conn.msg_ch) (refl, going, all) k in
      (flows.0, flows.1, relay_rounds-to_pool r es)

  relay_round-ended :
      (r : Relay) (e : Round)
      → r.ended ≡ true
      → ((relay_round sprint r e).ended ≡ true) × ((relay_round sprint r e).to_miner ≡ r.to_miner)
  unfolding relay_round
  relay_round-ended r (arrives m) h = ground (arith, h)
  relay_round-ended r to_miner_round h = ground (arith, h)
  relay_round-ended r (to_pool_round m) h = ground (arith, h)

  -- Once it has come to a nil message, that of a line that is not known, nothing is written to the miner.
  pub relay_rounds-ended :
      (r : Relay) (es : List Round)
      → r.ended ≡ true
      → (relay_rounds sprint r es).to_miner ≡ r.to_miner
  unfolding relay_rounds
  relay_rounds-ended r [] h = refl
  relay_rounds-ended r (e ∷ es) h =
      let one = relay_round-ended r e h in
      relay_rounds-ended (relay_round sprint r e) es one.0 ∙ one.1
