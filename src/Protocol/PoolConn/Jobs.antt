-- ===== src/Protocol/PoolConn/Jobs.antt =====
-- protocol/stratum_v1_pool_conn.go: the jobs that a connection remembers for a miner that comes back.
use hash_router.Common.{
  ◌≡◌, refl, sym, ap, ◌∙◌, String, true, false, Option, none, some, List, [], ◌∷◌, ◌++◌, map, All,
  if◌then◌else◌,
}
use hash_router.Common.Int.{ℤ}
use hash_router.Protocol.PoolConn.{
  Message, notify, set_difficulty, set_extranonce, reply, submit, request, unparsed, Notify,
  PoolConn, read_interceptor, present, relevant_notifications,
}

-- The notify messages among the messages of a pool.
unfoldable pub notifies : List Message → List Notify
notifies [] = []
notifies (notify n ∷ l) = n ∷ notifies l
notifies (m ∷ l) = notifies l

-- No message clears the jobs.
abbrev pub IsKept : Message → Type 0
IsKept (notify n) = n.clean_jobs ≡ false
IsKept m = Unit

-- The last difficulty among the messages, or the one before them.
unfoldable pub last_difficulty : Option ℤ → List Message → Option ℤ
last_difficulty d [] = d
last_difficulty d (set_difficulty e ∷ l) = last_difficulty (some e) l
last_difficulty d (m ∷ l) = last_difficulty d l

present-append :
    (l : List (Option Notify)) (n : Notify) → present (l ++ some n ∷ []) ≡ present l ++ n ∷ []
unfolding present
present-append [] n = refl
present-append (none ∷ l) n = present-append l n
present-append (some m ∷ l) n = ap (λ r. m ∷ r) (present-append l n)

append_assoc : (l : List Notify) (n : Notify) (r : List Notify) → (l ++ n ∷ []) ++ r ≡ l ++ n ∷ r
append_assoc [] n r = refl
append_assoc (m ∷ l) n r = ap (λ t. m ∷ t) (append_assoc l n r)

append_nil : (l : List Notify) → l ++ [] ≡ l
append_nil [] = refl
append_nil (m ∷ l) = ap (λ t. m ∷ t) (append_nil l)

-- An extranonce, a difficulty if any, and jobs, as messages.
unfoldable pub resumes : String × ℤ → Option ℤ → List Notify → List Message
resumes (e, z) none jobs = set_extranonce e z ∷ map notify jobs
resumes (e, z) (some d) jobs = set_extranonce e z ∷ set_difficulty d ∷ map notify jobs

module _ (sprint : ℤ → String) where
  -- The state after `readInterceptor` has seen some messages.
  unfoldable pub intercept : PoolConn → List Message → PoolConn
  unfolding read_interceptor
  intercept s [] = s
  intercept s (m ∷ l) = intercept (read_interceptor sprint s m).0 l

  intercept-append :
      (s : PoolConn) (l r : List Message) → intercept s (l ++ r) ≡ intercept (intercept s l) r
  unfolding intercept
  intercept-append s [] r = refl
  intercept-append s (m ∷ l) r = intercept-append (read_interceptor sprint s m).0 l r

  intercept-kept :
      (s : PoolConn) (l : List Message)
      → All IsKept l
      → present (intercept s l).notify_msgs ≡ present s.notify_msgs ++ notifies l
  unfolding intercept read_interceptor notifies
  intercept-kept s [] h = sym (append_nil (present s.notify_msgs))
  intercept-kept s (notify n ∷ l) h =
      ap
        (λ b.
          let kept = if b then [] else s.notify_msgs in
          present (intercept (record s { notify_msgs = kept ++ some n ∷ [] }) l).notify_msgs)
        h.0
      ∙ intercept-kept (record s { notify_msgs = s.notify_msgs ++ some n ∷ [] }) l h.1
      ∙ ap (λ t. t ++ notifies l) (present-append s.notify_msgs n)
      ∙ append_assoc (present s.notify_msgs) n (notifies l)
  intercept-kept s (set_difficulty d ∷ l) h =
      intercept-kept (record s { set_diff_msg = some d }) l h.1
  intercept-kept s (set_extranonce e z ∷ l) h = intercept-kept s l h.1
  intercept-kept s (reply r ∷ l) h = intercept-kept (read_interceptor sprint s (reply r)).0 l h.1
  intercept-kept s (submit i w ∷ l) h = intercept-kept s l h.1
  intercept-kept s (request i b ∷ l) h = intercept-kept s l h.1
  intercept-kept s (unparsed ∷ l) h = intercept-kept s l h.1

  intercept-difficulty :
      (s : PoolConn) (l : List Message)
      → (intercept s l).set_diff_msg ≡ last_difficulty s.set_diff_msg l
  unfolding intercept read_interceptor last_difficulty
  intercept-difficulty s [] = refl
  intercept-difficulty s (notify n ∷ l) =
      intercept-difficulty (read_interceptor sprint s (notify n)).0 l
  intercept-difficulty s (set_difficulty d ∷ l) =
      intercept-difficulty (read_interceptor sprint s (set_difficulty d)).0 l
  intercept-difficulty s (set_extranonce e z ∷ l) = intercept-difficulty s l
  intercept-difficulty s (reply r ∷ l) =
      intercept-difficulty (read_interceptor sprint s (reply r)).0 l
  intercept-difficulty s (submit i w ∷ l) = intercept-difficulty s l
  intercept-difficulty s (request i b ∷ l) = intercept-difficulty s l
  intercept-difficulty s (unparsed ∷ l) = intercept-difficulty s l

  intercept-extra_nonce :
      (s : PoolConn) (l : List Message) → (intercept s l).extra_nonce_msg ≡ s.extra_nonce_msg
  unfolding intercept read_interceptor
  intercept-extra_nonce s [] = refl
  intercept-extra_nonce s (notify n ∷ l) =
      intercept-extra_nonce (read_interceptor sprint s (notify n)).0 l
  intercept-extra_nonce s (set_difficulty d ∷ l) =
      intercept-extra_nonce (read_interceptor sprint s (set_difficulty d)).0 l
  intercept-extra_nonce s (set_extranonce e z ∷ l) = intercept-extra_nonce s l
  intercept-extra_nonce s (reply r ∷ l) =
      intercept-extra_nonce (read_interceptor sprint s (reply r)).0 l
  intercept-extra_nonce s (submit i w ∷ l) = intercept-extra_nonce s l
  intercept-extra_nonce s (request i b ∷ l) = intercept-extra_nonce s l
  intercept-extra_nonce s (unparsed ∷ l) = intercept-extra_nonce s l

  relevant_notifications-eq-resumes :
      (s : PoolConn) (x : String × ℤ) (d : Option ℤ) (jobs : List Notify)
      → s.extra_nonce_msg ≡ some x
      → s.set_diff_msg ≡ d
      → present s.notify_msgs ≡ jobs
      → relevant_notifications s ≡ resumes x d jobs
  unfolding relevant_notifications resumes
  relevant_notifications-eq-resumes s x none jobs hx hd hj = rw (hx, hd, hj) refl
  relevant_notifications-eq-resumes s x (some d) jobs hx hd hj = rw (hx, hd, hj) refl

  intercept-clean :
      (s : PoolConn) (n : Notify)
      → n.clean_jobs ≡ true
      → present (read_interceptor sprint s (notify n)).0.notify_msgs ≡ n ∷ []
  unfolding read_interceptor present
  intercept-clean s n h = rw h refl

  -- After any messages of the pool, of which one notified of a job that clears the earlier ones and
  -- none after it cleared again, a connection resends exactly the extranonce of its own subscription,
  -- the last difficulty that came, that job, and the later ones in order. An extranonce that the pool
  -- set among the messages is not resent: the one of the subscription is, which is then stale.
  pub resends-relevant :
      (s : PoolConn) (x : String × ℤ) (before after : List Message) (n : Notify)
      → s.extra_nonce_msg ≡ some x
      → n.clean_jobs ≡ true
      → All IsKept after
      → relevant_notifications (intercept s (before ++ notify n ∷ after))
        ≡ resumes x
            (last_difficulty s.set_diff_msg (before ++ notify n ∷ after))
            (n ∷ notifies after)
  unfolding intercept
  resends-relevant s x before after n hx clean kept =
      let all = before ++ notify n ∷ after in
      let m = intercept s before in
      let m' = (read_interceptor sprint m (notify n)).0 in
      relevant_notifications-eq-resumes (intercept s all) x (last_difficulty s.set_diff_msg all)
        (n ∷ notifies after) (intercept-extra_nonce s all ∙ hx) (intercept-difficulty s all)
        (ap (λ (c : PoolConn). present c.notify_msgs) (intercept-append s before (notify n ∷ after))
          ∙ intercept-kept m' after kept
          ∙ ap (λ t. t ++ notifies after) (intercept-clean m n clean))
