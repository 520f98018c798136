-- ===== src/Protocol/MinerModel/Handshake.antt =====
-- protocol/stratum_v1_miner_model.go: `Connect`, the handshake with a miner.
use hash_router.Common.{◌≡◌, refl, ap, String, Option, some, List, [], ◌∷◌, ◌++◌, All, map}
use hash_router.Common.Int.{ℤ}
use hash_router.Protocol.MinerModel.{
  MinerModel, MinerMessage, configure, subscribe, authorize, other, MinerReply, configured,
  subscribed, authorized, Progress, is_done, connect_step, connect_miner, goes_on,
}

-- The requests that `Connect` answers, by their IDs.
unfoldable pub request_ids : List MinerMessage → List ℤ
request_ids [] = []
request_ids (configure id body ∷ l) = id ∷ request_ids l
request_ids (subscribe id ∷ l) = id ∷ request_ids l
request_ids (authorize id worker ∷ l) = id ∷ request_ids l
request_ids (other ∷ l) = request_ids l

abbrev pub reply_id : MinerReply → ℤ
reply_id (configured id answer) = id
reply_id (subscribed id extranonce size) = id
reply_id (authorized id) = id

module _ (pool_answer : String → Option String) (extranonce : String × ℤ) where
  -- A message before the authorization that the pool does not refuse.
  abbrev pub GoesOn : MinerMessage → Type 0
  GoesOn (configure id body) = (answer : String) × (pool_answer body ≡ some answer)
  GoesOn (subscribe id) = Unit
  GoesOn (authorize id worker) = ⊥
  GoesOn other = Unit

  connect_miner-step :
      (s : MinerModel) (m : MinerMessage) (l : List MinerMessage) (s' : MinerModel)
      (replies : List MinerReply)
      → connect_step pool_answer extranonce s m ≡ (s', replies, goes_on)
      → connect_miner pool_answer extranonce s (m ∷ l) ≡ (
          let (last, later, progress, unread) = connect_miner pool_answer extranonce s' l in
          (last, replies ++ later, progress, unread))
  unfolding connect_miner
  connect_miner-step s m l s' replies e =
      rw (connect_miner, e)
        (ap
          (λ (x : MinerModel × List MinerReply × Progress).
            let (last, later, progress, unread) = connect_miner pool_answer extranonce x.0 l in
            (last, x.1 ++ later, progress, unread))
          e)

  -- A handshake that the pool does not refuse ends at the first authorization: every request up to
  -- it is answered under its ID and in order, the worker name is taken over, and what the miner
  -- sends afterwards is left unread.
  pub connect_miner-is_done :
      (s : MinerModel) (before after : List MinerMessage) (id : ℤ) (worker : String)
      → All GoesOn before
      → let (s', replies, progress, unread) =
          connect_miner pool_answer extranonce s (before ++ authorize id worker ∷ after) in
        (progress ≡ is_done)
        × (unread ≡ after)
        × (s'.worker_name ≡ worker)
        × (map reply_id replies ≡ request_ids before ++ id ∷ [])
  unfolding connect_miner connect_step request_ids
  connect_miner-is_done s [] after id worker h = (refl, refl, refl, refl)
  connect_miner-is_done s (configure i body ∷ l) after id worker h =
      let (answer, there) = h.0 in
      let asked : MinerModel = record s {
        configure_msg_req = some body;
        configure_msg_res = some answer;
      } in
      let (end, unread, name, ids) = connect_miner-is_done asked l after id worker h.1 in
      rw
        (connect_miner-step s (configure i body) (l ++ authorize id worker ∷ after) asked
          (configured i answer ∷ []) (rw (there, connect_step) refl))
        (end, unread, name, ap (λ t. i ∷ t) ids)
  connect_miner-is_done s (subscribe i ∷ l) after id worker h =
      let (end, unread, name, ids) = connect_miner-is_done s l after id worker h.1 in
      (end, unread, name, ap (λ t. i ∷ t) ids)
  connect_miner-is_done s (authorize i w ∷ l) after id worker h = elim h.0 [ ]
  connect_miner-is_done s (other ∷ l) after id worker h =
      connect_miner-is_done s l after id worker h.1
