-- ===== src/Stores/EventBus.antt =====
-- eventbus/event-bus.go: events by name, to the channels of those who have subscribed.
use hash_router.Common.{
  ◌≡◌, sym, arith, ℕ, ◌+◌, ◌≤◌, String, Option, none, some, List, [], ◌∷◌, ◌++◌, map, if◌then◌else◌,
  length, ltb, append_assoc, append-nil, length-append,
}
use hash_router.Common.Dict.{Dict, get, put}

-- A channel with its id and the events in its buffer, from the oldest.
pub record Listener : Type 0 where
  pub id : ℕ
  pub queue : List String

pub record EventChannel : Type 0 where
  pub listener_channels : List Listener
  pub last_channel_id : ℕ

pub record EventBus : Type 0 where
  pub event_channels : Dict EventChannel
  pub buffer_size : ℕ

unfoldable pub new_event_bus : EventBus
new_event_bus = record { event_channels = []; buffer_size = 1000000 }

abbrev no_channel : EventChannel
no_channel = record { listener_channels = []; last_channel_id = 0 }

-- `Subscribe`
unfoldable pub subscribe : EventBus → String → EventBus
subscribe e event_name =
    let channel : EventChannel = elim (get e.event_channels event_name) [
      | none ↦ no_channel
      | some c ↦ c
    ] in
    let id = channel.last_channel_id + 1 in
    record e {
      event_channels = put e.event_channels event_name (record {
        listener_channels = channel.listener_channels ++ record { id = id; queue = [] } ∷ [];
        last_channel_id = id;
      });
    }

-- A send that does not wait: an event for a full buffer is dropped.
unfoldable pub offer : ℕ → String → Listener → Listener
offer size event l =
    if ltb (length l.queue) size then record l { queue = l.queue ++ event ∷ [] } else l

-- `Publish`. The buffers have the size of their creation, which only `SetBufferSize` changes.
unfoldable pub publish : EventBus → String → String → EventBus
unfolding offer
publish e event_name event = elim (get e.event_channels event_name) [
  | none ↦ e
  | some c ↦ record e {
    event_channels =
        put e.event_channels event_name
          (record c { listener_channels = map (offer e.buffer_size event) c.listener_channels });
  }
]

-- A subscriber that takes the oldest event of its channel.
unfoldable pub take_event : Listener → Option (String × Listener)
take_event l = elim l.queue [ [] ↦ none | x ∷ rest ↦ some (x, record l { queue = rest }) ]

-- Events that are published one after the other, and what they do to one channel.
unfoldable pub publish_all : EventBus → String → List String → EventBus
unfolding publish
publish_all e event_name [] = e
publish_all e event_name (x ∷ events) = publish_all (publish e event_name x) event_name events

unfoldable pub offer_all : ℕ → List String → Listener → Listener
unfolding offer
offer_all size [] l = l
offer_all size (x ∷ events) l = offer_all size events (offer size x l)

offer-room :
    (size : ℕ) (x : String) (l : Listener)
    → length l.queue + 1 ≤ size
    → offer size x l ≡ record l { queue = l.queue ++ x ∷ [] }
unfolding offer
offer-room size x l h = ground (arith, h)

-- A channel with room for the events gets them all, in order.
offer_all-queue :
    (size : ℕ) (events : List String) (l : Listener)
    → length l.queue + length events ≤ size
    → (offer_all size events l).queue ≡ l.queue ++ events
unfolding offer_all offer
offer_all-queue size [] l h = sym (append-nil l.queue)
offer_all-queue size (x ∷ events) l h =
    let l' : Listener = record l { queue = l.queue ++ x ∷ [] } in
    ground (
      arith,
      offer-room size x l,
      offer_all-queue size events l',
      length-append l.queue (x ∷ []),
      append_assoc l.queue (x ∷ []) events,
    )
