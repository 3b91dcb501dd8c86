-- ===== src/MarketData/Delivery.antt =====
-- infrastructure/market-data-push-system/broadcaster.hpp: what a subscriber gets.
use collections.Prelude.{
  ℕ, zero, suc, ◌+◌, ◌^◌, ◌≤◌, ◌<◌, ltb, not, true, false, Bool-cases, none, some, List, [], ◌∷◌,
  ◌++◌, ◌≡◌, refl, sym, ◌∙◌, ap, keep_if, append_assoc, append-nil, length, length-append, ◌==◌,
  nat_eq, string_eq, inl, inr, ◌⊎◌, arith,
}
use collections.Prelude.Dict.{lookup, insert, lookup-insert_self}
use collections.MarketData.Types.{BroadcastMessage}
use collections.MarketData.Broadcaster.{Broadcaster, SubscriptionState, next_u64, poll_loop, poll}

-- The messages from a sequence number on.
abbrev pub from : ℕ → List BroadcastMessage → List BroadcastMessage
from next = keep_if (λ (message : BroadcastMessage). not (ltb message.sequence next))

-- Sequence numbers above a bound that grow, and do not wrap.
abbrev pub Increasing : ℕ → List BroadcastMessage → Type 0
Increasing lower [] = Unit
Increasing lower (message ∷ messages) =
    (lower < message.sequence)
    × (message.sequence + 1 < 2 ^ 64)
    × Increasing message.sequence messages

next_u64-suc : (n : ℕ) → n + 1 < 2 ^ 64 → next_u64 n ≡ n + 1
unfolding next_u64
next_u64-suc n h = omega (arith, h)

from-all :
    (next lower : ℕ) (messages : List BroadcastMessage)
    → Increasing lower messages
    → next ≤ lower + 1
    → from next messages ≡ messages
from-all next lower [] h k = refl
from-all next lower (m ∷ messages) h k =
    let above = h.0 in
    let further : next ≤ m.sequence + 1 = omega (arith, above, k) in
    ground (arith, above, k, from-all next m.sequence messages h.2 further)

from-older :
    (next : ℕ) (m : BroadcastMessage) (messages : List BroadcastMessage)
    → m.sequence < next
    → from next (m ∷ messages) ≡ from next messages
from-older next m messages h = ground (arith, h)

from-newer :
    (next : ℕ) (m : BroadcastMessage) (messages : List BroadcastMessage)
    → next ≤ m.sequence
    → from next (m ∷ messages) ≡ m ∷ from next messages
from-newer next m messages h = ground (arith, h)

-- What the loop adds to the batch, where it has room for `suc room` more.
record Polled (max_items room next : ℕ) (messages batch : List BroadcastMessage) : Type 0 where
  got : List BroadcastMessage
  next' : ℕ
  runs : poll_loop max_items messages batch next ≡ (batch ++ got, next')
  onward : next ≤ next'
  whole : got ++ from next' messages ≡ from next messages
  bounded : length got ≤ suc room
  greedy : (length got ≡ suc room) ⊎ (from next' messages ≡ [])

ltb→< : (a b : ℕ) → ltb a b ≡ true → a < b
ltb→< a b h = ground (arith, h)

ltb→≤ : (a b : ℕ) → ltb a b ≡ false → b ≤ a
ltb→≤ a b h = ground (arith, h)

module _ (max_items next lower : ℕ) (m : BroadcastMessage) (messages batch : List BroadcastMessage)
    (grows : Increasing lower (m ∷ messages)) where
  -- A message from before is passed over.
  skipped :
      (room : ℕ)
      → ltb m.sequence next ≡ true
      → Polled max_items room next messages batch
      → Polled max_items room next (m ∷ messages) batch
  unfolding poll_loop
  skipped room old rest =
      let older : m.sequence < next = ltb→< m.sequence next old in
      let on = rest.onward in
      let older' : m.sequence < rest.next' = omega (arith, older, on) in
      record {
        got = rest.got;
        next' = rest.next';
        runs = rw (old, poll_loop) rest.runs;
        onward = rest.onward;
        whole =
            ap (λ xs. rest.got ++ xs) (from-older rest.next' m messages older')
            ∙ rest.whole
            ∙ sym (from-older next m messages older);
        bounded = rest.bounded;
        greedy = elim rest.greedy [
          | inl filled ↦ inl filled
          | inr empty ↦ inr (from-older rest.next' m messages older' ∙ empty)
        ];
      }

  -- The messages after one that is taken are all to be read.
  from-next :
      ltb m.sequence next ≡ false → from next (m ∷ messages) ≡ m ∷ from (m.sequence + 1) messages
  from-next new =
      let newer = ltb→≤ m.sequence next new in
      from-newer next m messages newer
      ∙ ap (λ xs. m ∷ xs)
          (from-all next m.sequence messages grows.2 (omega (arith, newer))
            ∙ sym (from-all (m.sequence + 1) m.sequence messages grows.2 (omega arith)))

  stopped :
      ltb m.sequence next ≡ false
      → length batch + 1 ≡ max_items
      → Polled max_items 0 next (m ∷ messages) batch
  unfolding poll_loop
  stopped new full =
      let newer = ltb→≤ m.sequence next new in
      let now : (length (batch ++ m ∷ []) == max_items) ≡ true =
        ground (arith, length-append batch (m ∷ []), full) in
      record {
        got = m ∷ [];
        next' = m.sequence + 1;
        runs = rw (new, poll_loop, now, next_u64-suc m.sequence grows.1) refl;
        onward = omega (arith, newer);
        whole =
            ap (λ xs. m ∷ xs) (from-older (m.sequence + 1) m messages (omega arith))
            ∙ sym (from-next new);
        bounded = omega arith;
        greedy = inl refl;
      }

  continued :
      (room : ℕ)
      → ltb m.sequence next ≡ false
      → length batch + suc (suc room) ≡ max_items
      → Polled max_items room (m.sequence + 1) messages (batch ++ m ∷ [])
      → Polled max_items (suc room) next (m ∷ messages) batch
  unfolding poll_loop
  continued room new full rest =
      let newer = ltb→≤ m.sequence next new in
      let on = rest.onward in
      let short = rest.bounded in
      let later : m.sequence < rest.next' = omega (arith, on) in
      let now : (length (batch ++ m ∷ []) == max_items) ≡ false =
        ground (arith, length-append batch (m ∷ []), full) in
      record {
        got = m ∷ rest.got;
        next' = rest.next';
        runs =
            rw (new, poll_loop, now, next_u64-suc m.sequence grows.1)
              (rest.runs ∙ ap (λ xs. (xs, rest.next')) (append_assoc batch (m ∷ []) rest.got));
        onward = omega (arith, newer, on);
        whole =
            ap (λ xs. m ∷ (rest.got ++ xs)) (from-older rest.next' m messages later)
            ∙ ap (λ xs. m ∷ xs) rest.whole
            ∙ sym (from-next new);
        bounded = omega (arith, short);
        greedy = elim rest.greedy [
          | inl filled ↦ inl (ap suc filled)
          | inr empty ↦ inr (from-older rest.next' m messages later ∙ empty)
        ];
      }

poll_loop-Polled :
    (max_items room next lower : ℕ) (messages batch : List BroadcastMessage)
    → Increasing lower messages
    → length batch + suc room ≡ max_items
    → Polled max_items room next messages batch
unfolding poll_loop
poll_loop-Polled max_items room next lower [] batch h full = record {
  got = [];
  next' = next;
  runs = rw (append-nil batch) refl;
  onward = omega arith;
  whole = refl;
  bounded = omega arith;
  greedy = inr refl;
}
poll_loop-Polled max_items zero next lower (m ∷ messages) batch h full =
    elim (Bool-cases (ltb m.sequence next)) [
      | inl old ↦
          skipped max_items next lower m messages batch h 0 old
            (poll_loop-Polled max_items zero next m.sequence messages batch h.2 full)
      | inr new ↦ stopped max_items next lower m messages batch h new full
    ]
poll_loop-Polled max_items (suc room) next lower (m ∷ messages) batch h full =
    elim (Bool-cases (ltb m.sequence next)) [
      | inl old ↦
          skipped max_items next lower m messages batch h (suc room) old
            (poll_loop-Polled max_items (suc room) next m.sequence messages batch h.2 full)
      | inr new ↦ continued max_items next lower m messages batch h room new full (
          poll_loop-Polled max_items room (m.sequence + 1) m.sequence messages (batch ++ m ∷ []) h.2
            (omega (arith, length-append batch (m ∷ []), full)))
    ]

-- What a subscriber has still to read of the topic it follows.
unfoldable pub unread : ℕ → List BroadcastMessage → Broadcaster → List BroadcastMessage
unread subscriber_id messages b = elim (lookup subscriber_id b.subscribers) [
  | none ↦ []
  | some subscriber ↦ from subscriber.next_sequence messages
]

unread-known :
    (subscriber_id : ℕ) (messages : List BroadcastMessage) (b : Broadcaster)
    (subscriber : SubscriptionState)
    → lookup subscriber_id b.subscribers ≡ some subscriber
    → unread subscriber_id messages b ≡ from subscriber.next_sequence messages
unfolding unread
unread-known subscriber_id messages b subscriber known = rw (known, unread) refl

-- A poll of a known subscriber, for at least one message of a history whose sequence numbers grow
-- and do not wrap, splits what was unread: the batch and what is unread afterwards are, in this
-- order, what was unread before, so no message is lost, repeated or moved. The batch is no longer
-- than asked, it is as long as asked or nothing is unread afterwards, and the histories stay.
pub poll_splits_unread :
    (subscriber_id max_items : ℕ) (b : Broadcaster) (subscriber : SubscriptionState)
    (messages : List BroadcastMessage)
    → lookup subscriber_id b.subscribers ≡ some subscriber
    → lookup subscriber.topic b.history ≡ some messages
    → Increasing 0 messages
    → 1 ≤ max_items
    → ((poll subscriber_id max_items b).1
          ++ unread subscriber_id messages (poll subscriber_id max_items b).0
        ≡ unread subscriber_id messages b)
      × (length (poll subscriber_id max_items b).1 ≤ max_items)
      × ((length (poll subscriber_id max_items b).1 ≡ max_items)
          ⊎ (unread subscriber_id messages (poll subscriber_id max_items b).0 ≡ []))
      × ((poll subscriber_id max_items b).0.history ≡ b.history)
unfolding poll unread
poll_splits_unread subscriber_id zero b subscriber messages known topic grows some_items =
    absurd (omega arith)
poll_splits_unread subscriber_id (suc room) b subscriber messages known topic grows some_items =
    let p =
      poll_loop-Polled (suc room) room subscriber.next_sequence 0 messages [] grows (omega arith) in
    let after = record subscriber { next_sequence = p.next' } in
    let seen =
      unread-known subscriber_id messages
        (record b { subscribers = insert subscriber_id after b.subscribers }) after
        (lookup-insert_self subscriber_id after b.subscribers) in
    rw (known, poll, topic, p.runs)
      (
        ap (λ xs. p.got ++ xs) seen
            ∙ p.whole
            ∙ sym (unread-known subscriber_id messages b subscriber known),
        p.bounded,
        (elim p.greedy [ inl filled ↦ inl filled | inr empty ↦ inr (seen ∙ empty) ]),
        refl,
      )
