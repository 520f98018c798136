-- ===== src/Protocol/PoolConn/Replies.antt =====
-- protocol/stratum_v1_pool_conn.go: which results of a pool reach the caller that waits for them.
use hash_router.Common.{
  ℕ, ◌+◌, ◌%◌, ◌^◌, ◌<◌, ◌≡◌, refl, ◌∙◌, String, Bool, true, false, none, some, [], ◌∷◌, ◌++◌,
  arith, str_eq, eq_refl, length, if◌then◌else◌,
}
use hash_router.Common.Int.{ℤ}
use hash_router.Common.Dict.{get, put, delete, get-put, get-delete}
use hash_router.Protocol.PoolConn.{
  reply, Reply, PoolConn, Handler, wait_reply, count_share, read_interceptor, receive,
  register_result_handler, send_request, await_reply, send_to_read_ch, channel_size,
}

module _ (sprint : ℤ → String) where
  -- A caller that waits for a result gets it once, and only for its own ID: the handler is called
  -- and taken out, and every other handler stays. If the connection is being read and the channel
  -- has room, the same result is relayed to the miner too.
  receive-awaited :
      (s : PoolConn) (r : Reply) (h : Handler)
      → get s.res_handlers (sprint r.id) ≡ some h
      → s.is_reading ≡ true
      → length s.msg_ch < channel_size
      → (s' : PoolConn) × (receive sprint s (reply r) ≡ some (s', some h))
        × (s'.msg_ch ≡ s.msg_ch ++ reply r ∷ [])
        × ((k : String)
            → get s'.res_handlers k
              ≡ (if str_eq (sprint r.id) k then none else get s.res_handlers k))
  unfolding receive read_interceptor send_to_read_ch
  receive-awaited s r h there reading room =
      let s' : PoolConn = record s {
        res_handlers = delete s.res_handlers (sprint r.id);
        msg_ch = s.msg_ch ++ reply r ∷ [];
      } in
      (s', ground (arith), refl, λ k. get-delete s.res_handlers (sprint r.id) k)

  -- A result that comes between the sending of its request and the registration of the handler is
  -- lost: no handler is called for it, and the handler registered afterwards waits. The condition is
  -- that the ID was not in use, and that the connection is not yet read, as in `Connect`.
  receive-too_early :
      (s : PoolConn) (body text : String) (is_error : Bool)
      → s.is_reading ≡ false
      → get s.res_handlers (sprint (ℤ.pos (send_request s body).1)) ≡ none
      → let (sent, id, m) = send_request s body in
        let r : Reply = record { id = ℤ.pos id; is_error = is_error; text = text } in
        (s' : PoolConn) × (receive sprint sent (reply r) ≡ some (s', none))
        × (get (await_reply sprint s' id).res_handlers (sprint (ℤ.pos id)) ≡ some wait_reply)
  unfolding receive read_interceptor send_request await_reply register_result_handler
  receive-too_early s body text is_error idle unused =
      let id = (s.last_request_id + 1) % 2 ^ 32 in
      let s' : PoolConn = record s {
        last_request_id = id;
        res_handlers = delete s.res_handlers (sprint (ℤ.pos id));
      } in
      (
        s',
        rw (idle, unused) refl,
        ground (
          arith,
          get-put s'.res_handlers (sprint (ℤ.pos id)) (sprint (ℤ.pos id)) wait_reply,
          eq_refl (sprint (ℤ.pos id)),
        ),
      )

  -- Requests of the node and submits of the miner share the handlers by ID: where the miner submits
  -- with the ID of a request that still waits, the result of the request counts a share, and no
  -- waiting handler of that ID is left.
  register-overwrites :
      (s : PoolConn) (id : ℕ) (r : Reply)
      → r.id ≡ ℤ.pos id
      → let s' = register_result_handler sprint (await_reply sprint s id) (ℤ.pos id) count_share in
        let (s'', called) = read_interceptor sprint s' (reply r) in
        (called ≡ some count_share) × (get s''.res_handlers (sprint (ℤ.pos id)) ≡ none)
  unfolding read_interceptor await_reply register_result_handler
  register-overwrites s id r e =
      let k = sprint (ℤ.pos id) in
      let m = put s.res_handlers k wait_reply in
      let same : str_eq k (sprint r.id) ≡ true = rw e (eq_refl k) in
      (
        get-put m k (sprint r.id) count_share ∙ rw same refl,
        get-delete (put m k count_share) (sprint r.id) k ∙ rw (e, eq_refl k) refl,
      )
