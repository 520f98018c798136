-- ===== src/Protocol/PoolConn/Resend.antt =====
-- protocol/stratum_v1_pool_conn.go: when `ResendRelevantNotifications` has to wait for the reader.
use hash_router.Common.{
  suc, ◌+◌, ◌≡◌, ◌≢◌, refl, ap, ◌∙◌, true, false, none, some, List, [], ◌∷◌, ◌++◌, arith, length,
  ltb, leb, if◌then◌else◌, Bool-cases, Option-cases, inl, inr,
}
use hash_router.Protocol.PoolConn.{
  Message, PoolConn, send_to_read_ch, send_all, relevant_notifications,
  resend_relevant_notifications, channel_size,
}

length-snoc : (l : List Message) (m : Message) → length (l ++ m ∷ []) ≡ suc (length l)
length-snoc [] m = refl
length-snoc (x ∷ l) m = ap suc (length-snoc l m)

snoc-append : (l : List Message) (m : Message) (r : List Message) → (l ++ m ∷ []) ++ r ≡ l ++ m ∷ r
snoc-append [] m r = refl
snoc-append (x ∷ l) m r = ap (λ t. x ∷ t) (snoc-append l m r)

append_nil : (l : List Message) → l ++ [] ≡ l
append_nil [] = refl
append_nil (x ∷ l) = ap (λ t. x ∷ t) (append_nil l)

send_all-fits :
    (s : PoolConn) (m : Message) (l : List Message)
    → send_all s (m ∷ l) ≡ (
        if leb (length s.msg_ch + suc (length l)) channel_size
        then some (record s { msg_ch = s.msg_ch ++ m ∷ l })
        else none)
unfolding send_all send_to_read_ch
send_all-fits s m [] = elim (Bool-cases (ltb (length s.msg_ch) channel_size)) [
  | inl room ↦ rw (send_all, room) (ground arith)
  | inr full ↦ rw (send_all, full) (ground arith)
]
send_all-fits s m (n ∷ l) = elim (Bool-cases (ltb (length s.msg_ch) channel_size)) [
  | inl room ↦
      rw (send_all, room)
        (send_all-fits (record s { msg_ch = s.msg_ch ++ m ∷ [] }) n l
          ∙ ground (arith, length-snoc s.msg_ch m, snoc-append s.msg_ch m (n ∷ l)))
  | inr full ↦ rw (send_all, full) (ground arith)
]

relevant-nonempty : (s : PoolConn) → relevant_notifications s ≢ []
unfolding relevant_notifications
relevant-nonempty s h = elim (Option-cases s.extra_nonce_msg) [
  | inl gone ↦ ground arith
  | inr (x, there) ↦ ground arith
]

first-rest : (l : List Message) → l ≢ [] → (m : Message) × (r : List Message) × (l ≡ m ∷ r)
first-rest [] h = elim (h refl) [ ]
first-rest (m ∷ r) h = (m, r, refl)

relevant-held :
    (s : PoolConn)
    → relevant_notifications (record s { is_reading = false }) ≡ relevant_notifications s
unfolding relevant_notifications
relevant-held s = refl

-- `ResendRelevantNotifications` puts what is relevant behind the messages that are pending and
-- releases the reading, if all of it fits into the channel. Otherwise it waits for the reader.
pub resend_relevant_notifications-fits :
    (s : PoolConn)
    → resend_relevant_notifications s ≡ (
        if leb (length s.msg_ch + length (relevant_notifications s)) channel_size
        then some (record s { msg_ch = s.msg_ch ++ relevant_notifications s; is_reading = true })
        else none)
unfolding resend_relevant_notifications
resend_relevant_notifications-fits s =
    let (m, l, e) = first-rest (relevant_notifications s) (relevant-nonempty s) in
    let held : PoolConn = record s { is_reading = false } in
    elim (Bool-cases (leb (length s.msg_ch + suc (length l)) channel_size)) [
      | inl fits ↦
          rw (resend_relevant_notifications, relevant-held s, e, send_all-fits held m l, fits) refl
      | inr full ↦
          rw (resend_relevant_notifications, relevant-held s, e, send_all-fits held m l, full) refl
    ]
