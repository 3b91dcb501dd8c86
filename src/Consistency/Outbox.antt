-- ===== src/Consistency/Outbox.antt =====
-- infrastructure/distributed-consistency/outbox.hpp: messages that wait for dispatch. Each method
-- holds the mutex throughout, so it is one step.
use collections.Prelude.{
  ℕ, ◌+◌, Bool, true, false, List, [], ◌∷◌, ◌++◌, if◌then◌else◌, ◌==◌, nat_eq, string_eq, length,
}
use Prim.Native.String.{String}

pub data OutboxState : Type 0 where
  pending dispatched : OutboxState

pub record OutboxMessage : Type 0 where
  pub id : String
  pub topic : String
  pub payload : String
  pub state : OutboxState

abbrev pub OutboxStore : Type 0
OutboxStore = List OutboxMessage

abbrev pub is_pending : OutboxState → Bool
is_pending pending = true
is_pending dispatched = false

unfoldable pub append_message : OutboxMessage → OutboxStore → OutboxStore
append_message message messages = messages ++ message ∷ []

-- The loop of `pending_batch`: it looks at the size of the batch after each message.
unfoldable pub batch_loop : ℕ → List OutboxMessage → OutboxStore → List OutboxMessage
batch_loop max_items batch [] = batch
batch_loop max_items batch (message ∷ messages) =
    let batch' = if is_pending message.state then batch ++ message ∷ [] else batch in
    let rest = batch_loop max_items batch' messages in
    if length batch' == max_items then batch' else rest

unfoldable pub pending_batch : ℕ → OutboxStore → List OutboxMessage
unfolding batch_loop
pending_batch max_items messages = batch_loop max_items [] messages

-- The store afterwards, and whether the message was there.
unfoldable pub mark_dispatched : String → OutboxStore → OutboxStore × Bool
mark_dispatched message_id [] = ([], false)
mark_dispatched message_id (message ∷ messages) =
    let (rest, found) = mark_dispatched message_id messages in
    if message.id == message_id
    then (record message { state = dispatched } ∷ messages, true)
    else (message ∷ rest, found)

unfoldable pub pending_count : OutboxStore → ℕ
pending_count [] = 0
pending_count (message ∷ messages) =
    if is_pending message.state then pending_count messages + 1 else pending_count messages
