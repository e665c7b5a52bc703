-- ===== src/EventStream/Examples.antt =====
-- The event stream on short histories; handlers and events are numbers.
use protoactor_cpp.Base.{ℕ, ◌≡◌, refl, none, some, List, [], ◌∷◌, ltb, map, keep}
use protoactor_cpp.EventStream.{
  EventStream, new_stream, subscribe, subscribe_with_predicate, unsubscribe, deactivate, publish,
}
use protoactor_cpp.EventStream.Delivery.{IsValid, wants, resolve, publish-wants}
use protoactor_cpp.EventStream.Counting.{Call, subscribes, unsubscribes}

abbrev Stream : Type 0
Stream = EventStream ℕ ℕ

one : Stream
one = (subscribe_with_predicate new_stream 10 (λ evt. ltb evt 5)).0

-- Handlers 11 and 12 are subscribed; 11 is taken out, and 13 gets the id of 12.
abbrev shared_ids : Stream
shared_ids =
    let s1 = (subscribe new_stream 11).0 in
    let s2 = (subscribe s1 12).0 in let s3 = unsubscribe s2 (some 0) in (subscribe s3 13).0

-- To unsubscribe 13 takes 12 out of the stream: nobody is called any more.
silenced : publish (unsubscribe shared_ids (some 2)) 1 ≡ []
unfolding new_stream subscribe unsubscribe deactivate publish
silenced = refl

publish-wants_example :
    publish one 3 ≡ map (λ sub. sub.handler) (keep (wants 3) (resolve one.heap one.subscriptions))
publish-wants_example = publish-wants one 3

new_stream-IsValid : IsValid (new_stream {H = ℕ} {E = ℕ})
unfolding new_stream
new_stream-IsValid = record { in_heap = tt; counted = refl }

abbrev calls : List (Call ℕ ℕ)
calls = subscribes 11 none ∷ subscribes 12 none ∷ unsubscribes (some 0) ∷ []
