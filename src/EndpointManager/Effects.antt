-- ===== src/EndpointManager/Effects.antt =====
-- The subscriptions among the effects, and the calls that leave them (endpoint_manager.cpp).
use protoactor_cpp.Base.{
  ◌≡◌, Bool, true, false, ◌||◌, none, some, List, [], ◌∷◌, ◌++◌, Bytes, if◌then◌else◌, ℕ, ◌+◌,
  arith, is_some, ltb, keep, length,
}
use protoactor_cpp.EndpointManager.{
  EndpointManager, Effect, subscribes, unsubscribes, endpoint_terminated, endpoint_connected,
  other_event, ensure_connected, remove_endpoint, handle_event, tell_terminated, remote_deliver,
  remote_watch, remote_unwatch, remote_terminate,
}
use protoactor_cpp.EndpointManager.Calls.{
  Call, starts, stops, ensures, removes, event, delivers, watches, unwatches, terminates, handle,
  is_stop,
}

abbrev pub is_subscribes : Effect → Bool
is_subscribes (subscribes sub) = true
is_subscribes _ = false

abbrev pub is_unsubscribes : Effect → Bool
is_unsubscribes (unsubscribes sub) = true
is_unsubscribes _ = false

abbrev pub to_nat : Bool → ℕ
to_nat true = 1
to_nat false = 0

pub count_snoc :
    (p : Effect → Bool) (xs : List Effect) (x : Effect)
    → length (keep p (xs ++ x ∷ [])) ≡ length (keep p xs) + to_nat (p x)
count_snoc p [] x = ground arith
count_snoc p (y ∷ ys) x = ground (arith, count_snoc p ys x)

abbrev pub subscribed : List Effect → ℕ
subscribed effects = length (keep is_subscribes effects)

abbrev pub unsubscribed : List Effect → ℕ
unsubscribed effects = length (keep is_unsubscribes effects)

module _ {M : Type 0} where
  abbrev pub is_start : Call M → Bool
  is_start (starts sub spawned) = true
  is_start _ = false

  -- The calls of Start before the first Stop.
  abbrev pub starts_before_stop : List (Call M) → ℕ
  starts_before_stop [] = 0
  starts_before_stop (c ∷ cs) =
      let later = starts_before_stop cs in if is_stop c then 0 else to_nat (is_start c) + later

  abbrev pub has_stop : List (Call M) → Bool
  has_stop [] = false
  has_stop (c ∷ cs) = is_stop c || has_stop cs

  -- Before Stop nothing is unsubscribed, and a subscription is held once one was made.
  abbrev pub Live : EndpointManager M → Type 0
  Live s =
      (s.stopped ≡ false)
      × (unsubscribed s.effects ≡ 0)
      × (is_some s.endpoint_sub ≡ ltb 0 (subscribed s.effects))

  -- A call that leaves the effects, the subscription and the flag.
  abbrev pub Keeps : EndpointManager M → EndpointManager M → Type 0
  Keeps s t = (t.effects ≡ s.effects) × (t.endpoint_sub ≡ s.endpoint_sub) × (t.stopped ≡ s.stopped)

  pub handle-Keeps :
      (local : Bytes → Bool) (s : EndpointManager M) (c : Call M)
      → is_stop c ≡ false
      → is_start c ≡ false
      → Keeps s (handle local s c)
  unfolding handle handle_event ensure_connected remove_endpoint remote_deliver remote_watch
      remote_unwatch remote_terminate tell_terminated
  handle-Keeps local s (ensures address) h h' = (ground arith, ground arith, ground arith)
  handle-Keeps local s (removes address) h h' = (ground arith, ground arith, ground arith)
  handle-Keeps local s (event (endpoint_terminated address)) h h' =
      (ground arith, ground arith, ground arith)
  handle-Keeps local s (event (endpoint_connected address)) h h' =
      (ground arith, ground arith, ground arith)
  handle-Keeps local s (event other_event) h h' = (ground arith, ground arith, ground arith)
  handle-Keeps local s (delivers none m a) h h' = (ground arith, ground arith, ground arith)
  handle-Keeps local s (delivers (some p) m a) h h' = (ground arith, ground arith, ground arith)
  handle-Keeps local s (watches w none) h h' = (ground arith, ground arith, ground arith)
  handle-Keeps local s (watches w (some p)) h h' = (ground arith, ground arith, ground arith)
  handle-Keeps local s (unwatches w none) h h' = (ground arith, ground arith, ground arith)
  handle-Keeps local s (unwatches w (some p)) h h' = (ground arith, ground arith, ground arith)
  handle-Keeps local s (terminates w none) h h' = (ground arith, ground arith, ground arith)
  handle-Keeps local s (terminates w (some p)) h h' = (ground arith, ground arith, ground arith)
  handle-Keeps local s stops h h' = ground arith
  handle-Keeps local s (starts sub spawned) h h' = ground arith
