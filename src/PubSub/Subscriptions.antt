-- ===== src/PubSub/Subscriptions.antt =====
-- Who gets what is published (pubsub.cpp, pubsub_delivery.cpp).
use protoactor_cpp.Base.{
  ℕ, ◌≡◌, inl, inr, Bool, true, false, not, ◌&&◌, ◌||◌, Option, none, some, List, [], ◌∷◌, Bytes,
  bytes_eq, bytes_beq, bytes_beq_iff, nat_eq, eqb, eqb_iff, lookup, lookup-insert, lookup-erase,
  is_some, has, put, has-put, if◌then◌else◌, arith, Option-cases,
}
use protoactor_cpp.PubSub.{
  PubSub, start, stop, or_nil, subscribe, without, set_or_erase, unsubscribe_from, unsubscribe,
}

pub data Call : Type 0 where
  starts : Option ℕ → Call
  stops : Call
  subscribes unsubscribes : Bytes → Option ℕ → Call

unfoldable pub handle : PubSub → Call → PubSub
handle s (starts spawned) = start s spawned
handle s stops = (stop s).0
handle s (subscribes topic p) = subscribe s topic p
handle s (unsubscribes topic p) = unsubscribe s topic p

unfoldable pub run : PubSub → List Call → PubSub
run s [] = s
run s (c ∷ cs) = run (handle s c) cs

abbrev pub subscribers_of : PubSub → Bytes → List ℕ
subscribers_of s topic = or_nil (lookup topic s.subscriptions)

abbrev pub call_running : Bool → Call → Bool
call_running running (starts spawned) = true
call_running running stops = false
call_running running c = running

-- Whether there is a delivery actor: it is never given up.
abbrev pub call_actor : Bool → Bool → Call → Bool
call_actor false actor (starts spawned) = is_some spawned || actor
call_actor running actor c = actor

-- Whether a pointer is subscribed to a topic after a call, from whether it was. Stop ends the
-- subscriptions of a system that runs without a delivery actor.
abbrev pub call_subscribed : Bool → Bool → Call → Bytes → ℕ → Bool → Bool
call_subscribed running actor stops topic p was = if running && not actor then false else was
call_subscribed true actor (subscribes other (some q)) topic p was =
    (bytes_beq other topic && eqb q p) || was
call_subscribed true actor (unsubscribes other (some q)) topic p was =
    not (bytes_beq other topic && eqb q p) && was
call_subscribed running actor c topic p was = was

-- Subscriptions and their ends count while the system runs.
abbrev pub subscribed_after : Bool → Bool → List Call → Bytes → ℕ → Bool → Bool
subscribed_after running actor [] topic p was = was
subscribed_after running actor (c ∷ cs) topic p was =
    subscribed_after (call_running running c) (call_actor running actor c) cs topic p
      (call_subscribed running actor c topic p was)

pub has-without : (q p : ℕ) (ps : List ℕ) → has p (without q ps) ≡ (not (eqb q p) && has p ps)
unfolding has
has-without q p [] = ground arith
has-without q p (x ∷ xs) = ground (arith, has-without q p xs, eqb_iff x q, eqb_iff q p, eqb_iff x p)

lookup-set_or_erase :
    (topic other : Bytes) (ps : List ℕ) (subscriptions : List (Bytes × List ℕ))
    → or_nil (lookup other (set_or_erase topic ps subscriptions))
      ≡ (if bytes_beq topic other then ps else or_nil (lookup other subscriptions))
lookup-set_or_erase topic other [] subscriptions =
    ground (arith, lookup-erase topic other subscriptions)
lookup-set_or_erase topic other (p ∷ ps) subscriptions =
    ground (arith, lookup-insert topic other (p ∷ ps) subscriptions)

-- The list of a topic after Unsubscribe.
pub unsubscribe_lem :
    (topic other : Bytes) (q : ℕ) (subscriptions : List (Bytes × List ℕ))
    → or_nil (lookup other (unsubscribe_from topic q subscriptions)) ≡ (
        if bytes_beq topic other
        then without q (or_nil (lookup other subscriptions))
        else or_nil (lookup other subscriptions))
unfolding unsubscribe_from
unsubscribe_lem topic other q subscriptions = elim (Option-cases (lookup topic subscriptions)) [
  | inl e ↦ ground (arith, e, bytes_beq_iff topic other)
  | inr (subs, e) ↦ ground (
    arith,
    e,
    lookup-set_or_erase topic other (without q subs) subscriptions,
    bytes_beq_iff topic other,
  )
]

-- One call, seen from one topic.
abbrev Steps : PubSub → Call → PubSub → Bytes → ℕ → Type 0
Steps s c t topic p =
    (has p (subscribers_of t topic)
      ≡ call_subscribed s.running (is_some s.delivery_actor) c topic p
          (has p (subscribers_of s topic)))
    × (t.running ≡ call_running s.running c)
    × (is_some t.delivery_actor ≡ call_actor s.running (is_some s.delivery_actor) c)

pub handle-Steps : (s : PubSub) (c : Call) (topic : Bytes) (p : ℕ) → Steps s c (handle s c) topic p
unfolding handle start stop subscribe unsubscribe
handle-Steps s (starts spawned) topic p = (ground arith, ground arith, ground arith)
handle-Steps s stops topic p = (unfold lookup has in ground arith, ground arith, ground arith)
handle-Steps s (subscribes other none) topic p = (ground arith, ground arith, ground arith)
handle-Steps s (subscribes other (some q)) topic p =
    let old = or_nil (lookup other s.subscriptions) in
    (
      ground (
        arith,
        lookup-insert other topic (put q old) s.subscriptions,
        has-put q p old,
        bytes_beq_iff other topic,
      ),
      ground arith,
      ground arith,
    )
handle-Steps s (unsubscribes other none) topic p = (ground arith, ground arith, ground arith)
handle-Steps s (unsubscribes other (some q)) topic p = (
  ground (
    arith,
    unsubscribe_lem other topic q s.subscriptions,
    has-without q p (subscribers_of s topic),
  ),
  ground arith,
  ground arith,
)
