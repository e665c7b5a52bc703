-- ===== src/EventStream/Delivery.antt =====
-- Who is called by Publish, and the counter (eventstream.cpp).
use protoactor_cpp.Base.{
  ℕ, zero, suc, ◌+◌, ◌%◌, ◌^◌, ◌<◌, ◌≡◌, refl, Bool, true, false, ◌&&◌, Option, none, some, List,
  [], ◌∷◌, ◌++◌, map, length, length-append, length-set, get_elem?, if◌then◌else◌, arith,
  Option-cases, inl, inr, keep, All, ◌≤◌,
}
use protoactor_cpp.EventStream.{
  Subscription, EventStream, id_of, accepts, subscribe_predicate, deactivate, erase_id, drop_erased,
  unsubscribe, snapshot, deliver, publish,
}

All-mono : (m n : ℕ) (ps : List ℕ) → m ≤ n → All (λ p. p < m) ps → All (λ p. p < n) ps
All-mono m n [] le h = tt
All-mono m n (p ∷ ps) le h = (omega arith, All-mono m n ps le h.1)

All-snoc : (n q : ℕ) (ps : List ℕ) → q < n → All (λ p. p < n) ps → All (λ p. p < n) (ps ++ q ∷ [])
All-snoc n q [] lt h = (lt, tt)
All-snoc n q (p ∷ ps) lt h = (h.0, All-snoc n q ps lt h.1)

module _ {H E : Type 0} where
  -- The subscription takes the event: it is active and its predicate, if any, holds.
  abbrev pub wants : E → Subscription H E → Bool
  wants evt sub = sub.active && accepts evt sub.predicate

  -- The subscriptions that the stream's pointers stand for, in order.
  abbrev pub resolve : List (Subscription H E) → List ℕ → List (Subscription H E)
  resolve heap [] = []
  resolve heap (p ∷ ps) = elim (get_elem? heap p) [
    | none ↦ resolve heap ps
    | some sub ↦ sub ∷ resolve heap ps
  ]

  deliver-snapshot :
      (s : EventStream H E) (evt : E) (ps : List ℕ)
      → deliver s evt (snapshot s ps)
        ≡ map (λ sub. sub.handler) (keep (wants evt) (resolve s.heap ps))
  unfolding deliver snapshot
  deliver-snapshot s evt [] = refl
  deliver-snapshot s evt (p ∷ ps) = ground (arith, deliver-snapshot s evt ps)

  -- An event goes to the handlers of those subscriptions that are active and whose predicate, if
  -- there is one, accepts it, in the order of the stream; to no others, and to each once.
  pub publish-wants :
      (s : EventStream H E) (evt : E)
      → publish s evt ≡ map (λ sub. sub.handler) (keep (wants evt) (resolve s.heap s.subscriptions))
  unfolding publish
  publish-wants s evt = deliver-snapshot s evt s.subscriptions

  -- Every pointer of the stream points into the heap, and the counter counts the pointers.
  pub record IsValid (s : EventStream H E) : Type 0 where
    pub in_heap : All (λ p. p < length s.heap) s.subscriptions
    pub counted : s.counter ≡ length s.subscriptions % 2 ^ 32

  pub subscribe-IsValid :
      (s : EventStream H E) (h : H) (pred : Option (E → Bool))
      → IsValid s
      → IsValid (subscribe_predicate s h pred).0
  unfolding subscribe_predicate
  subscribe-IsValid s h pred v = record {
    in_heap =
        All-snoc _ (length s.heap) s.subscriptions (omega (arith, length-append {0}))
          (All-mono (length s.heap) _ s.subscriptions (omega (arith, length-append {0})) v.in_heap);
    counted = omega (arith, v.counted, length-append s.subscriptions (length s.heap ∷ []));
  }

  erase_id-length :
      (s : EventStream H E) (id : ℕ) (ps qs : List ℕ)
      → erase_id s id ps ≡ some qs
      → length ps ≡ length qs + 1
  unfolding erase_id
  erase_id-length s id [] qs e = cc
  erase_id-length s id (p ∷ ps) qs e = elim (Option-cases (erase_id s id ps)) [
    | inl none_left ↦ ground arith
    | inr (rest, found) ↦ ground (arith, erase_id-length s id ps rest found)
  ]

  erase_id-All :
      (s : EventStream H E) (id n : ℕ) (ps qs : List ℕ)
      → erase_id s id ps ≡ some qs
      → All (λ p. p < n) ps
      → All (λ p. p < n) qs
  unfolding erase_id
  erase_id-All s id n [] qs e h = cc
  erase_id-All s id n (p ∷ ps) qs e h = elim (Option-cases (erase_id s id ps)) [
    | inl none_left ↦ ground arith
    | inr (rest, found) ↦ ground (arith, erase_id-All s id n ps rest found h.1)
  ]

  pub deactivate_keeps :
      (s : EventStream H E) (p : ℕ)
      → let s' = (deactivate s p).0 in
        (length s'.heap ≡ length s.heap)
        × (s'.subscriptions ≡ s.subscriptions)
        × (s'.counter ≡ s.counter)
  unfolding deactivate
  deactivate_keeps s p = elim (Option-cases (get_elem? s.heap p)) [
    | inl e ↦ rw e (refl, refl, refl)
    | inr (sub, e) ↦ ground (arith, length-set s.heap p (record sub { active = false }))
  ]

  drop_erased-IsValid :
      (s : EventStream H E) (id : ℕ)
      → IsValid s
      → IsValid (drop_erased s (erase_id s id s.subscriptions))
  unfolding drop_erased
  drop_erased-IsValid s id v = elim (Option-cases (erase_id s id s.subscriptions)) [
    | inl e ↦ rw e v
    | inr (qs, e) ↦
        let long = erase_id-length s id s.subscriptions qs e in
        let below = erase_id-All s id (length s.heap) s.subscriptions qs e v.in_heap in
        rw e (record { in_heap = below; counted = omega (arith, v.counted, long) })
  ]

  pub unsubscribe-IsValid :
      (s : EventStream H E) (p : Option ℕ) → IsValid s → IsValid (unsubscribe s p)
  unfolding unsubscribe
  unsubscribe-IsValid s none v = v
  unsubscribe-IsValid s (some p) v =
      let (h, subs, count) = deactivate_keeps s p in
      let v' : IsValid (deactivate s p).0 = record {
        in_heap = rw (h, subs) v.in_heap;
        counted = rw (count, subs) v.counted;
      } in
      ground (arith, v', drop_erased-IsValid (deactivate s p).0 (id_of (deactivate s p).0 p) v')

  resolve_snoc :
      (heap : List (Subscription H E)) (ps : List ℕ) (p : ℕ) (sub : Subscription H E)
      → get_elem? heap p ≡ some sub
      → resolve heap (ps ++ p ∷ []) ≡ resolve heap ps ++ sub ∷ []
  resolve_snoc heap [] p sub e = ground arith
  resolve_snoc heap (q ∷ ps) p sub e = ground (arith, resolve_snoc heap ps p sub e)

  get_elem?-grown :
      (heap : List (Subscription H E)) (sub : Subscription H E) (p : ℕ)
      → p < length heap
      → get_elem? (heap ++ sub ∷ []) p ≡ get_elem? heap p
  get_elem?-grown [] sub p h = elim h [ ]
  get_elem?-grown (x ∷ heap) sub zero h = refl
  get_elem?-grown (x ∷ heap) sub (suc p) h = get_elem?-grown heap sub p (omega arith)

  get_elem?-new :
      (heap : List (Subscription H E)) (sub : Subscription H E)
      → get_elem? (heap ++ sub ∷ []) (length heap) ≡ some sub
  get_elem?-new [] sub = refl
  get_elem?-new (x ∷ heap) sub = get_elem?-new heap sub

  resolve-grown :
      (heap : List (Subscription H E)) (sub : Subscription H E) (ps : List ℕ)
      → All (λ p. p < length heap) ps
      → resolve (heap ++ sub ∷ []) ps ≡ resolve heap ps
  resolve-grown heap sub [] h = refl
  resolve-grown heap sub (p ∷ ps) h =
      ground (arith, get_elem?-grown heap sub p h.0, resolve-grown heap sub ps h.1)

  keep_handlers-snoc :
      (evt : E) (subs : List (Subscription H E)) (sub : Subscription H E)
      → sub.active ≡ true
      → map (λ x. x.handler) (keep (wants evt) (subs ++ sub ∷ []))
        ≡ map (λ x. x.handler) (keep (wants evt) subs)
          ++ (if accepts evt sub.predicate then sub.handler ∷ [] else [])
  keep_handlers-snoc evt [] sub e = ground arith
  keep_handlers-snoc evt (x ∷ subs) sub e = ground (arith, keep_handlers-snoc evt subs sub e)

  -- After a subscription an event is delivered as before, and then, if the new predicate accepts
  -- it, to the new handler.
  pub publish-subscribe :
      (s : EventStream H E) (h : H) (pred : Option (E → Bool)) (evt : E)
      → IsValid s
      → publish (subscribe_predicate s h pred).0 evt
        ≡ publish s evt ++ (if accepts evt pred then h ∷ [] else [])
  publish-subscribe s h pred evt v =
      rw (publish-wants (subscribe_predicate s h pred).0 evt, publish-wants s evt)
        (unfold subscribe_predicate in
          let sub : Subscription H E = record {
            id = s.counter;
            handler = h;
            predicate = pred;
            active = true;
          } in
          rw
            (
              resolve_snoc (s.heap ++ sub ∷ []) s.subscriptions (length s.heap) sub
                  (get_elem?-new s.heap sub),
              resolve-grown s.heap sub s.subscriptions v.in_heap,
            )
            (keep_handlers-snoc evt (resolve s.heap s.subscriptions) sub refl))
