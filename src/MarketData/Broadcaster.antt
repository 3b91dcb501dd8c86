-- ===== src/MarketData/Broadcaster.antt =====
-- infrastructure/market-data-push-system/broadcaster.hpp: numbered messages by topic, subscribers
-- that poll, and replay. Each method holds the mutex throughout, so it is one step.
use collections.Prelude.{
  ℕ, ◌+◌, ◌%◌, ◌^◌, true, false, none, some, List, [], ◌∷◌, ◌++◌, ◌==◌, nat_eq, string_eq, ltb,
  length, keep_if,
}
use collections.Prelude.Dict.{Dict, lookup, insert, emplace}
use collections.MarketData.Types.{BroadcastMessage}
use Prim.Native.String.{String}

pub record SubscriptionState : Type 0 where
  pub topic : String
  pub next_sequence : ℕ

pub record Broadcaster : Type 0 where
  pub next_sequence : ℕ
  pub next_subscriber_id : ℕ
  pub history : Dict String (List BroadcastMessage)
  pub subscribers : Dict ℕ SubscriptionState

unfoldable pub empty_broadcaster : Broadcaster
empty_broadcaster = record {
  next_sequence = 0;
  next_subscriber_id = 0;
  history = [];
  subscribers = [];
}

-- `++n` of a `std::uint64_t`.
unfoldable pub next_u64 : ℕ → ℕ
next_u64 n = (n + 1) % 2 ^ 64

-- `history_[topic]`, which is empty where there is no entry.
unfoldable pub topic_history : String → Broadcaster → List BroadcastMessage
topic_history topic b = elim (lookup topic b.history) [ none ↦ [] | some messages ↦ messages ]

unfoldable pub subscribe : String → Broadcaster → Broadcaster × ℕ
unfolding next_u64
subscribe topic b =
    let subscriber_id = next_u64 b.next_subscriber_id in
    (
      record b {
        next_subscriber_id = subscriber_id;
        subscribers =
            emplace subscriber_id (record { topic = topic; next_sequence = 1 }) b.subscribers;
      },
      subscriber_id,
    )

unfoldable pub publish : String → String → Broadcaster → Broadcaster × BroadcastMessage
unfolding next_u64 topic_history
publish topic payload b =
    let message : BroadcastMessage = record {
      sequence = next_u64 b.next_sequence;
      topic = topic;
      payload = payload;
    } in
    (
      record b {
        next_sequence = next_u64 b.next_sequence;
        history = insert topic (topic_history topic b ++ message ∷ []) b.history;
      },
      message,
    )

-- The loop of `poll`: the batch so far, and the subscriber's next sequence number.
unfoldable pub poll_loop :
    ℕ → List BroadcastMessage → List BroadcastMessage → ℕ → List BroadcastMessage × ℕ
unfolding next_u64
poll_loop max_items [] batch next = (batch, next)
poll_loop max_items (message ∷ rest) batch next = elim (ltb message.sequence next) [
  | true ↦ poll_loop max_items rest batch next
  | false ↦ elim (length (batch ++ message ∷ []) == max_items) [
    | true ↦ (batch ++ message ∷ [], next_u64 message.sequence)
    | false ↦ poll_loop max_items rest (batch ++ message ∷ []) (next_u64 message.sequence)
  ]
]

unfoldable pub poll : ℕ → ℕ → Broadcaster → Broadcaster × List BroadcastMessage
unfolding poll_loop
poll subscriber_id max_items b = elim (lookup subscriber_id b.subscribers) [
  | none ↦ (b, [])
  | some subscriber ↦ elim (lookup subscriber.topic b.history) [
    | none ↦ (b, [])
    | some messages ↦
        let (batch, next) = poll_loop max_items messages [] subscriber.next_sequence in
        (
          record b {
            subscribers =
                insert subscriber_id (record subscriber { next_sequence = next }) b.subscribers;
          },
          batch,
        )
  ]
]

unfoldable pub replay : String → ℕ → Broadcaster → List BroadcastMessage
replay topic sequence_after b = elim (lookup topic b.history) [
  | none ↦ []
  | some messages ↦ keep_if (λ message. ltb sequence_after message.sequence) messages
]
