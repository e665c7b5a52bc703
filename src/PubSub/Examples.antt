-- ===== src/PubSub/Examples.antt =====
-- Two subscribers of topic 1, of whom one leaves.
use protoactor_cpp.Base.{
  ℕ, ◌≡◌, false, ◌&&◌, none, some, List, [], ◌∷◌, map, nat_eq, has, NoneTwice, is_some,
  if◌then◌else◌,
}
use protoactor_cpp.PubSub.{new_pub_sub, publish}
use protoactor_cpp.PubSub.Subscriptions.{
  Call, starts, stops, subscribes, unsubscribes, run, subscribers_of, subscribed_after,
}
use protoactor_cpp.PubSub.Publishing.{batch_subscribers, delivered, publish-run}

abbrev calls : List Call
calls =
    subscribes (1 ∷ []) (some 7)
    ∷ starts (some 9)
    ∷ subscribes (1 ∷ []) (some 8)
    ∷ subscribes (1 ∷ []) (some 5)
    ∷ subscribes (1 ∷ []) (some 8)
    ∷ stops
    ∷ starts none
    ∷ unsubscribes (1 ∷ []) (some 5)
    ∷ []

publish-run_example :
    let s = run new_pub_sub calls in
    let batch = publish {M = ℕ} s (1 ∷ []) (some 40) in
    (batch_subscribers batch ≡ (
      if s.running && is_some s.delivery_actor then map some (subscribers_of s (1 ∷ [])) else []))
    × (has 8 (subscribers_of s (1 ∷ [])) ≡ subscribed_after false false calls (1 ∷ []) 8 false)
    × NoneTwice (subscribers_of s (1 ∷ []))
    × (delivered batch ≡ (if is_some batch then none else some []))
publish-run_example = publish-run calls (1 ∷ []) 40 8
