-- ===== src/PubSub.antt =====
-- src/cluster/pubsub.cpp: PubSub, and src/cluster/pubsub_delivery.cpp: the actor that delivers its
-- batches. A subscriber is a pointer to a PID, which the code compares as a pointer; a message is a
-- pointer of type `M`. StopFuture and RequestFuture make a future first, which throws (NewFuture of
-- src/actor/future.cpp): what follows them in Stop and DeliverBatch is not reached.
pub mod Subscriptions
pub mod Publishing
mod Examples
use protoactor_cpp.Base.{
  ℕ, Bool, true, false, not, Option, none, some, List, [], ◌∷◌, ◌++◌, map, Bytes, bytes_eq, nat_eq,
  eqb, lookup, insert, erase, put, keep, if◌then◌else◌, ◌>>=◌,
}

pub record PubSub : Type 0 where
  pub running : Bool
  pub delivery_actor : Option ℕ
  pub subscriptions : List (Bytes × List ℕ)

-- DeliverBatchRequest; a null envelope message or subscriber is `none`.
pub record DeliverBatchRequest (M : Type 0) : Type 0 where
  pub topic : Bytes
  pub envelopes : List (Option M)
  pub subscribers : List (Option ℕ)

unfoldable pub new_pub_sub : PubSub
new_pub_sub = record { running = false; delivery_actor = none; subscriptions = [] }

-- `spawned` is the PID that SpawnNamed gives, `none` with an error.
unfoldable pub start : PubSub → Option ℕ → PubSub
start s spawned = if s.running then s else record s {
  running = true;
  delivery_actor = elim spawned [ none ↦ s.delivery_actor | some pid ↦ some pid ];
}

-- With it, whether Stop throws: StopFuture of the delivery actor does.
unfoldable pub stop : PubSub → PubSub × Bool
stop s =
    if s.running
    then elim s.delivery_actor [
      | none ↦ (record s { running = false; subscriptions = [] }, false)
      | some pid ↦ (record s { running = false }, true)
    ]
    else (s, false)

abbrev pub or_nil : Option (List ℕ) → List ℕ
or_nil none = []
or_nil (some subs) = subs

unfoldable pub subscribe : PubSub → Bytes → Option ℕ → PubSub
subscribe s topic none = s
subscribe s topic (some subscriber) =
    if s.running
    then record s {
      subscriptions =
          insert topic (put subscriber (or_nil (lookup topic s.subscriptions))) s.subscriptions;
    }
    else s

abbrev pub without : ℕ → List ℕ → List ℕ
without subscriber = keep (λ p. not (eqb p subscriber))

-- The topic is erased with its last subscriber.
abbrev pub set_or_erase : Bytes → List ℕ → List (Bytes × List ℕ) → List (Bytes × List ℕ)
set_or_erase topic [] subscriptions = erase topic subscriptions
set_or_erase topic (p ∷ ps) subscriptions = insert topic (p ∷ ps) subscriptions

unfoldable pub unsubscribe_from : Bytes → ℕ → List (Bytes × List ℕ) → List (Bytes × List ℕ)
unsubscribe_from topic subscriber subscriptions = elim (lookup topic subscriptions) [
  | none ↦ subscriptions
  | some subs ↦ set_or_erase topic (without subscriber subs) subscriptions
]

unfoldable pub unsubscribe : PubSub → Bytes → Option ℕ → PubSub
unfolding unsubscribe_from
unsubscribe s topic none = s
unsubscribe s topic (some subscriber) =
    if s.running
    then record s { subscriptions = unsubscribe_from topic subscriber s.subscriptions }
    else s

module _ {M : Type 0} where
  abbrev pub batch_for : Option ℕ → Bytes → Option M → List ℕ → Option (ℕ × DeliverBatchRequest M)
  batch_for delivery_actor topic message [] = none
  batch_for none topic message (p ∷ ps) = none
  batch_for (some actor) topic message (p ∷ ps) =
      some
        (actor, record { topic = topic; envelopes = message ∷ []; subscribers = map some (p ∷ ps) })

  -- The batch that Send gives to the delivery actor, if there is one.
  unfoldable pub publish : PubSub → Bytes → Option M → Option (ℕ × DeliverBatchRequest M)
  publish s topic message =
      if s.running
      then batch_for s.delivery_actor topic message (or_nil (lookup topic s.subscriptions))
      else none

  -- RequestFuture, which throws in NewFuture before it sends.
  abbrev request_future : ℕ → M → Option (ℕ × M)
  request_future subscriber message = none

  -- The requests of one subscriber; `none` means that RequestFuture threw.
  abbrev deliver_to : ℕ → List (Option M) → Option (List (ℕ × M))
  deliver_to subscriber [] = some []
  deliver_to subscriber (none ∷ envelopes) = deliver_to subscriber envelopes
  deliver_to subscriber (some message ∷ envelopes) = do
    request ← request_future subscriber message
    requests ← deliver_to subscriber envelopes
    some (request ∷ requests)

  -- The requests that are sent, in order.
  unfoldable pub deliver_batch : List (Option M) → List (Option ℕ) → Option (List (ℕ × M))
  deliver_batch envelopes [] = some []
  deliver_batch envelopes (none ∷ subscribers) = deliver_batch envelopes subscribers
  deliver_batch envelopes (some subscriber ∷ subscribers) = do
    first ← deliver_to subscriber envelopes
    others ← deliver_batch envelopes subscribers
    some (first ++ others)
