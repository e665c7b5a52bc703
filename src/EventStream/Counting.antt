-- ===== src/EventStream/Counting.antt =====
-- The counter over any history of calls (eventstream.cpp).
use protoactor_cpp.Base.{
  ℕ, ◌%◌, ◌^◌, ◌≡◌, refl, Bool, true, Option, List, [], ◌∷◌, length, length-set, get_elem?, arith,
  Option-cases, inl, inr,
}
use protoactor_cpp.EventStream.{
  EventStream, new_stream, subscribe_predicate, unsubscribe, activate, deactivate, stream_length,
}
use protoactor_cpp.EventStream.Delivery.{
  IsValid, subscribe-IsValid, unsubscribe-IsValid, deactivate_keeps,
}

-- The calls that change a stream or one of its subscriptions.
pub data Call (H E : Type 0) : Type 0 where
  subscribes : H → Option (E → Bool) → Call H E
  unsubscribes : Option ℕ → Call H E
  activates deactivates : ℕ → Call H E

module _ {H E : Type 0} where
  unfoldable pub call : EventStream H E → Call H E → EventStream H E
  call s (subscribes h pred) = (subscribe_predicate s h pred).0
  call s (unsubscribes p) = unsubscribe s p
  call s (activates p) = (activate s p).0
  call s (deactivates p) = (deactivate s p).0

  unfoldable pub run : EventStream H E → List (Call H E) → EventStream H E
  run s [] = s
  run s (c ∷ cs) = run (call s c) cs

  activate_keeps :
      (s : EventStream H E) (p : ℕ)
      → let s' = (activate s p).0 in
        (length s'.heap ≡ length s.heap)
        × (s'.subscriptions ≡ s.subscriptions)
        × (s'.counter ≡ s.counter)
  unfolding activate
  activate_keeps s p = elim (Option-cases (get_elem? s.heap p)) [
    | inl e ↦ ground arith
    | inr (sub, e) ↦ ground (arith, length-set s.heap p (record sub { active = true }))
  ]

  call-IsValid : (s : EventStream H E) (c : Call H E) → IsValid s → IsValid (call s c)
  unfolding call
  call-IsValid s (subscribes h pred) v = subscribe-IsValid s h pred v
  call-IsValid s (unsubscribes p) v = unsubscribe-IsValid s p v
  call-IsValid s (activates p) v =
      let (heap, subs, count) = activate_keeps s p in
      record { in_heap = rw (heap, subs) v.in_heap; counted = rw (count, subs) v.counted }
  call-IsValid s (deactivates p) v =
      let (heap, subs, count) = deactivate_keeps s p in
      record { in_heap = rw (heap, subs) v.in_heap; counted = rw (count, subs) v.counted }

  run-IsValid : (s : EventStream H E) (cs : List (Call H E)) → IsValid s → IsValid (run s cs)
  unfolding run
  run-IsValid s [] v = v
  run-IsValid s (c ∷ cs) v = run-IsValid (call s c) cs (call-IsValid s c v)

  -- After any calls Length is the number of subscriptions in the stream, up to 2^32, whichever of
  -- them were taken out.
  pub stream_length-run :
      (cs : List (Call H E))
      → stream_length (run new_stream cs) ≡ length (run new_stream cs).subscriptions % 2 ^ 32
  unfolding stream_length new_stream
  stream_length-run cs =
      (run-IsValid new_stream cs (record { in_heap = tt; counted = refl })).counted
