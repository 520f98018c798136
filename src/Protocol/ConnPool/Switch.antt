-- ===== src/Protocol/ConnPool/Switch.antt =====
-- protocol/stratum_v1_pool_conn_pool.go: what switching the destination does.
use hash_router.Common.{◌≡◌, String, true, false, none, some, str_eq}
use hash_router.Common.Dict.{Dict, get}
use hash_router.Protocol.PoolConn.{PoolConn}
use hash_router.Protocol.ConnPool.{
  ConnPool, SetDestReply, unchanged, reused, dialed, waits, dial_error, connect_error, is_current,
}

-- The connections to other destinations are as they were.
abbrev pub SameOthers : ConnPool → ConnPool → String → Type 0
SameOthers p p' dest = (j : String) → str_eq dest j ≡ false → get p'.pool j ≡ get p.pool j

-- The connection in use is the cached one to the destination, and is being read.
abbrev pub IsInUse : ConnPool → String → Type 0
IsInUse p dest =
    (p.conn ≡ some dest) × (c : PoolConn) × (get p.pool dest ≡ some c) × (c.is_reading ≡ true)

-- What each reply says of the pool before and after the call.
abbrev pub Settles : ConnPool → String → ConnPool × SetDestReply → Type 0
Settles p dest (p', unchanged) = (p' ≡ p) × (is_current p dest ≡ true)
Settles p dest (p', reused) = IsInUse p' dest × SameOthers p p' dest
Settles p dest (p', dialed) = (get p.pool dest ≡ none) × IsInUse p' dest × SameOthers p p' dest
Settles p dest (p', waits) = SameOthers p p' dest
Settles p dest (p', dial_error) = p' ≡ p
Settles p dest (p', connect_error e) = p' ≡ p
