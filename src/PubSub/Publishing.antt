-- ===== src/PubSub/Publishing.antt =====
-- What a publication leads to (pubsub.cpp, pubsub_delivery.cpp).
use protoactor_cpp.Base.{
  ℕ, ◌≡◌, refl, false, ◌&&◌, Option, none, some, List, [], ◌∷◌, map, Bytes, bytes_eq, nat_eq,
  lookup, lookup-insert, has, put, NoneTwice, NoneTwice-put, is_some, if◌then◌else◌, arith,
}
use protoactor_cpp.PubSub.{
  PubSub, DeliverBatchRequest, new_pub_sub, start, stop, or_nil, subscribe, without, unsubscribe,
  batch_for, publish, deliver_batch,
}
use protoactor_cpp.PubSub.Subscriptions.{
  Call, starts, stops, subscribes, unsubscribes, handle, run, subscribers_of, subscribed_after,
  handle-Steps, has-without, unsubscribe_lem,
}

run-subscribed :
    (s : PubSub) (cs : List Call) (topic : Bytes) (p : ℕ)
    → has p (subscribers_of (run s cs) topic)
      ≡ subscribed_after s.running
          (is_some s.delivery_actor)
          cs
          topic
          p
          (has p (subscribers_of s topic))
unfolding run
run-subscribed s [] topic p = refl
run-subscribed s (c ∷ cs) topic p =
    let (one, running, actor) = handle-Steps s c topic p in
    rw⁻¹ (running, actor, one) (run-subscribed (handle s c) cs topic p)

NoneTwice-without : (q : ℕ) (ps : List ℕ) → NoneTwice ps → NoneTwice (without q ps)
NoneTwice-without q [] h = tt
NoneTwice-without q (p ∷ ps) (first, rest) =
    ground (arith, NoneTwice-without q ps rest, has-without q p ps, first)

-- Nobody stands twice at a topic.
abbrev Once : PubSub → Type 0
Once s = (topic : Bytes) → NoneTwice (subscribers_of s topic)

handle-Once : (s : PubSub) (c : Call) → Once s → Once (handle s c)
unfolding handle start stop subscribe unsubscribe
handle-Once s (starts spawned) once topic = ground (arith, once topic)
handle-Once s stops once topic = unfold lookup in ground (arith, once topic)
handle-Once s (subscribes other none) once topic = once topic
handle-Once s (subscribes other (some q)) once topic =
    let old = or_nil (lookup other s.subscriptions) in
    ground (
      arith,
      lookup-insert other topic (put q old) s.subscriptions,
      NoneTwice-put q old (once other),
      once topic,
    )
handle-Once s (unsubscribes other none) once topic = once topic
handle-Once s (unsubscribes other (some q)) once topic = ground (
  arith,
  unsubscribe_lem other topic q s.subscriptions,
  NoneTwice-without q (subscribers_of s topic) (once topic),
  once topic,
)

run-Once : (s : PubSub) (cs : List Call) → Once s → Once (run s cs)
unfolding run
run-Once s [] once = once
run-Once s (c ∷ cs) once = run-Once (handle s c) cs (handle-Once s c once)

module _ {M : Type 0} where
  -- The subscribers of a batch that is published, if one is.
  abbrev pub batch_subscribers : Option (ℕ × DeliverBatchRequest M) → List (Option ℕ)
  batch_subscribers none = []
  batch_subscribers (some (actor, batch)) = batch.subscribers

  -- What the delivery actor requests for a publication, `none` if it throws.
  abbrev pub delivered : Option (ℕ × DeliverBatchRequest M) → Option (List (ℕ × M))
  delivered none = some []
  delivered (some (actor, batch)) = deliver_batch batch.envelopes batch.subscribers

  batch_lem :
      (actor : Option ℕ) (topic : Bytes) (message : M) (ps : List ℕ)
      → let batch = batch_for actor topic (some message) ps in
        (batch_subscribers batch ≡ (if is_some actor then map some ps else []))
        × (delivered batch ≡ (if is_some batch then none else some []))
  unfolding deliver_batch
  batch_lem none topic message [] = (refl, refl)
  batch_lem none topic message (p ∷ ps) = (refl, refl)
  batch_lem (some actor) topic message [] = (refl, refl)
  batch_lem (some actor) topic message (p ∷ ps) = (refl, refl)

  publish_lem :
      (s : PubSub) (topic : Bytes) (message : M)
      → let batch = publish s topic (some message) in
        (batch_subscribers batch ≡ (
          if s.running && is_some s.delivery_actor then map some (subscribers_of s topic) else []))
        × (delivered batch ≡ (if is_some batch then none else some []))
  unfolding publish
  publish_lem s topic message =
      let (subscribers, fails) =
        batch_lem s.delivery_actor topic message (subscribers_of s topic) in
      (ground (arith, subscribers), ground (arith, fails))

  -- After any calls: if the system runs and its delivery actor was spawned, the batch of a message
  -- that is published names each subscriber of its topic, and else nobody. The subscribers are, each
  -- once, the pointers that were subscribed and not unsubscribed while the system ran, since a Stop
  -- last ended a system that ran without a delivery actor; a Stop with one throws before it ends
  -- the subscriptions. The delivery of such a batch throws at its first subscriber, with nothing
  -- requested of anybody.
  pub publish-run :
      (cs : List Call) (topic : Bytes) (message : M) (p : ℕ)
      → let s = run new_pub_sub cs in
        let batch = publish s topic (some message) in
        (batch_subscribers batch ≡ (
          if s.running && is_some s.delivery_actor then map some (subscribers_of s topic) else []))
        × (has p (subscribers_of s topic) ≡ subscribed_after false false cs topic p false)
        × NoneTwice (subscribers_of s topic)
        × (delivered batch ≡ (if is_some batch then none else some []))
  unfolding new_pub_sub lookup has
  publish-run cs topic message p =
      let (subscribers, fails) = publish_lem (run new_pub_sub cs) topic message in
      (
        subscribers,
        run-subscribed new_pub_sub cs topic p,
        run-Once new_pub_sub cs (λ other. tt) topic,
        fails,
      )
