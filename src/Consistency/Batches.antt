-- ===== src/Consistency/Batches.antt =====
-- infrastructure/distributed-consistency/outbox.hpp: what a batch holds.
use collections.Prelude.{
  ℕ, zero, suc, ◌+◌, ◌≤◌, ◌≡◌, refl, sym, ◌∙◌, true, false, Bool-cases, List, [], ◌∷◌, ◌++◌,
  append_assoc, append-nil, ◌==◌, nat_eq, string_eq, length, length-append, take, keep_if, inl, inr,
  arith,
}
use collections.Consistency.Outbox.{
  OutboxMessage, OutboxStore, is_pending, batch_loop, pending_batch,
}

-- The messages that wait, in the order in which they were appended.
abbrev pub waiting : OutboxStore → List OutboxMessage
waiting = keep_if (λ (message : OutboxMessage). is_pending message.state)

snoc-append :
    (batch : List OutboxMessage) (m : OutboxMessage) (rest : List OutboxMessage)
    → (batch ++ m ∷ []) ++ rest ≡ batch ++ m ∷ rest
snoc-append batch m rest = append_assoc batch (m ∷ []) rest

-- Whether the batch is full after one more message.
now_full :
    (max_items : ℕ) (batch : List OutboxMessage) (m : OutboxMessage)
    → length batch + 1 ≡ max_items
    → (length (batch ++ m ∷ []) == max_items) ≡ true
now_full max_items batch m h = ground (arith, length-append batch (m ∷ []), h)

not_full :
    (max_items room : ℕ) (batch : List OutboxMessage) (m : OutboxMessage)
    → length batch + suc (suc room) ≡ max_items
    → (length (batch ++ m ∷ []) == max_items) ≡ false
not_full max_items room batch m h = ground (arith, length-append batch (m ∷ []), h)

not_yet :
    (max_items room : ℕ) (batch : List OutboxMessage)
    → length batch + suc room ≡ max_items
    → (length batch == max_items) ≡ false
not_yet max_items room batch h = ground (arith, h)

-- The loop fills a batch that has room for one more and `room` others.
batch_loop-take :
    (max_items room : ℕ) (batch : List OutboxMessage) (messages : OutboxStore)
    → length batch + suc room ≡ max_items
    → batch_loop max_items batch messages ≡ batch ++ take (suc room) (waiting messages)
unfolding batch_loop
batch_loop-take max_items room batch [] h = sym (append-nil batch)
batch_loop-take max_items zero batch (m ∷ messages) h = elim (Bool-cases (is_pending m.state)) [
  | inr p ↦ rw (p, not_yet max_items zero batch h) (batch_loop-take max_items zero batch messages h)
  | inl p ↦ rw (p, now_full max_items batch m h) refl
]
batch_loop-take max_items (suc room) batch (m ∷ messages) h =
    elim (Bool-cases (is_pending m.state)) [
      | inr p ↦
          rw (p, not_yet max_items (suc room) batch h)
            (batch_loop-take max_items (suc room) batch messages h)
      | inl p ↦
          rw (p, not_full max_items room batch m h)
            (batch_loop-take max_items room (batch ++ m ∷ []) messages
                (omega (arith, length-append batch (m ∷ []), h))
              ∙ snoc-append batch m (take (suc room) (waiting messages)))
    ]

-- A batch of at most `max_items`, where that is not zero, is the first waiting messages, as many as
-- there are up to that number.
pub pending_batch-take :
    (max_items : ℕ) (messages : OutboxStore)
    → 1 ≤ max_items
    → pending_batch max_items messages ≡ take max_items (waiting messages)
unfolding pending_batch
pending_batch-take zero messages h = absurd (omega arith)
pending_batch-take (suc room) messages h = batch_loop-take (suc room) room [] messages (omega arith)

never_empty :
    (n : ℕ) (batch : List OutboxMessage) → length batch ≡ suc n → (length batch == 0) ≡ false
never_empty n batch h = ground (arith, h)

-- A batch that holds a message already never has the size zero.
batch_loop-zero :
    (n : ℕ) (batch : List OutboxMessage) (messages : OutboxStore)
    → length batch ≡ suc n
    → batch_loop 0 batch messages ≡ batch ++ waiting messages
unfolding batch_loop
batch_loop-zero n batch [] h = sym (append-nil batch)
batch_loop-zero n batch (m ∷ messages) h = elim (Bool-cases (is_pending m.state)) [
  | inr p ↦ rw (p, never_empty n batch h) (batch_loop-zero n batch messages h)
  | inl p ↦
      let longer : length (batch ++ m ∷ []) ≡ suc (suc n) =
        omega (arith, length-append batch (m ∷ []), h) in
      rw (p, never_empty (suc n) (batch ++ m ∷ []) longer)
        (batch_loop-zero (suc n) (batch ++ m ∷ []) messages longer
          ∙ snoc-append batch m (waiting messages))
]

-- A batch of at most zero messages is every waiting message, where the oldest message of all waits.
pub pending_batch-zero :
    (m : OutboxMessage) (messages : OutboxStore)
    → is_pending m.state ≡ true
    → pending_batch 0 (m ∷ messages) ≡ waiting (m ∷ messages)
unfolding pending_batch batch_loop
pending_batch-zero m messages p = rw (p) (batch_loop-zero 0 (m ∷ []) messages refl)
