-- ===== src/EndpointManager/Stopped.antt =====
-- What Start and Stop do once and again (endpoint_manager.cpp).
use protoactor_cpp.Base.{
  ◌≡◌, refl, ap, ◌∙◌, inl, inr, Bool, true, false, ◌&&◌, Option, none, some, List, [], ◌∷◌, ◌++◌,
  Bytes, ℕ, suc, ◌+◌, arith, Option-cases, ltb,
}
use protoactor_cpp.Pid.{Pid}
use protoactor_cpp.EndpointManager.{
  EndpointManager, subscribes, unsubscribes, spawns_activator, new_manager, start, stop,
  start_activator, stop_subscription,
}
use protoactor_cpp.EndpointManager.Calls.{
  Call, starts, stops, ensures, removes, event, delivers, watches, unwatches, terminates, handle,
  run, is_stop,
}
use protoactor_cpp.EndpointManager.Effects.{
  is_subscribes, is_unsubscribes, to_nat, count_snoc, subscribed, unsubscribed, is_start,
  starts_before_stop, has_stop, Live, Keeps, handle-Keeps,
}

module _ {M : Type 0} where
  data Kind (c : Call M) : Type 0 where
    a_stop : c ≡ stops → Kind c
    a_start : (sub : ℕ) (spawned : Option Pid) → c ≡ starts sub spawned → Kind c
    a_remote : is_stop c ≡ false → is_start c ≡ false → Kind c

  kind : (c : Call M) → Kind c
  kind stops = a_stop refl
  kind (starts sub spawned) = a_start sub spawned refl
  kind (ensures address) = a_remote refl refl
  kind (removes address) = a_remote refl refl
  kind (event e) = a_remote refl refl
  kind (delivers target message sender) = a_remote refl refl
  kind (watches watcher watchee) = a_remote refl refl
  kind (unwatches watcher watchee) = a_remote refl refl
  kind (terminates watcher watchee) = a_remote refl refl

  stopped-handle :
      (local : Bytes → Bool) (s : EndpointManager M) (c : Call M)
      → s.stopped ≡ true
      → ((handle local s c).effects ≡ s.effects) × ((handle local s c).stopped ≡ true)
  stopped-handle local s c h = elim (kind c) [
    | a_stop e ↦ rw e (unfold handle stop in (ground (arith, h), ground (arith, h)))
    | a_start sub spawned e ↦ rw e (unfold handle start in (ground (arith, h), ground (arith, h)))
    | a_remote e f ↦
        let (effects, sub, stopped) = handle-Keeps local s c e f in (effects, stopped ∙ h)
  ]

  -- Once stopped, the manager touches no other component.
  stopped-run :
      (local : Bytes → Bool) (s : EndpointManager M) (cs : List (Call M))
      → s.stopped ≡ true
      → (run local s cs).effects ≡ s.effects
  unfolding run
  stopped-run local s [] h = refl
  stopped-run local s (c ∷ cs) h =
      let (effects, stopped) = stopped-handle local s c h in
      stopped-run local (handle local s c) cs stopped ∙ effects

  start-Live :
      (s : EndpointManager M) (sub : ℕ) (spawned : Option Pid)
      → Live s
      → Live (start s sub spawned)
        × (subscribed (start s sub spawned).effects ≡ suc (subscribed s.effects))
  unfolding start start_activator
  start-Live s sub none (live, un, held) =
      let one = count_snoc is_subscribes s.effects (subscribes sub) in
      let two = count_snoc is_subscribes (s.effects ++ subscribes sub ∷ []) spawns_activator in
      let one' = count_snoc is_unsubscribes s.effects (subscribes sub) in
      let two' = count_snoc is_unsubscribes (s.effects ++ subscribes sub ∷ []) spawns_activator in
      (
        (
          ground (arith, live),
          ground (arith, live, un, one', two'),
          ground (arith, live, one, two),
        ),
        ground (arith, live, one, two),
      )
  start-Live s sub (some p) (live, un, held) =
      let one = count_snoc is_subscribes s.effects (subscribes sub) in
      let two = count_snoc is_subscribes (s.effects ++ subscribes sub ∷ []) spawns_activator in
      let one' = count_snoc is_unsubscribes s.effects (subscribes sub) in
      let two' = count_snoc is_unsubscribes (s.effects ++ subscribes sub ∷ []) spawns_activator in
      (
        (
          ground (arith, live),
          ground (arith, live, un, one', two'),
          ground (arith, live, one, two),
        ),
        ground (arith, live, one, two),
      )

  stop_subscription-counts :
      (s : EndpointManager M)
      → Live s
      → (subscribed (stop_subscription s).effects ≡ subscribed s.effects)
        × (unsubscribed (stop_subscription s).effects ≡ to_nat (ltb 0 (subscribed s.effects)))
  stop_subscription-counts s (live, un, held) = elim (Option-cases s.endpoint_sub) [
    | inl e ↦ (ground (arith, e), ground (arith, e, un, held))
    | inr (sub, e) ↦ (
      ground (arith, e, count_snoc is_subscribes s.effects (unsubscribes sub)),
      ground (arith, e, un, held, count_snoc is_unsubscribes s.effects (unsubscribes sub)),
    )
  ]

  stop-counts :
      (s : EndpointManager M)
      → Live s
      → (subscribed (stop s).effects ≡ subscribed s.effects)
        × (unsubscribed (stop s).effects ≡ to_nat (ltb 0 (subscribed s.effects)))
        × ((stop s).stopped ≡ true)
  unfolding stop
  stop-counts s (live, un, held) =
      let (one, one') = stop_subscription-counts s (live, un, held) in
      (ground (arith, live, one), ground (arith, live, one'), ground (arith, live))

  Keeps-Live : (s t : EndpointManager M) → Live s → Keeps s t → Live t
  Keeps-Live s t (live, un, held) (effects, sub, stopped) =
      (stopped ∙ live, ap unsubscribed effects ∙ un, ground (arith, effects, sub, held))

  abbrev Counted : EndpointManager M → ℕ → ℕ → Type 0
  Counted s n m = (subscribed s.effects ≡ n) × (unsubscribed s.effects ≡ m)

  run-counts :
      (local : Bytes → Bool) (s : EndpointManager M) (cs : List (Call M))
      → Live s
      → Counted
          (run local s cs)
          (subscribed s.effects + starts_before_stop cs)
          (to_nat (has_stop cs && ltb 0 (subscribed s.effects + starts_before_stop cs)))
  unfolding run handle
  run-counts local s [] (live, un, held) = (ground arith, ground (arith, un))
  run-counts local s (c ∷ cs) live = elim (kind c) [
    | a_stop e ↦
        let (subs, unsubs, stopped) = stop-counts s live in
        let after = stopped-run local (stop s) cs stopped in
        rw e (
          ap subscribed after ∙ ground (arith, subs),
          ap unsubscribed after ∙ ground (arith, unsubs),
        )
    | a_start sub spawned e ↦
        let (live', more) = start-Live s sub spawned live in
        let (subs, unsubs) = run-counts local (start s sub spawned) cs live' in
        rw e (ground (arith, subs, more), ground (arith, unsubs, more))
    | a_remote e f ↦
        let keeps = handle-Keeps local s c e f in
        let (subs, unsubs) =
          run-counts local (handle local s c) cs (Keeps-Live s (handle local s c) live keeps) in
        (ground (arith, subs, e, f, keeps.0), ground (arith, unsubs, e, f, keeps.0))
  ]

  -- In a history of calls the manager subscribes once for each Start before the first Stop and
  -- unsubscribes once, at that Stop, if there was such a Start; later calls do neither. So a second
  -- Start leaves a subscription that is never taken back.
  pub counts-run :
      (local : Bytes → Bool) (cs : List (Call M))
      → let s = run local new_manager cs in
        (subscribed s.effects ≡ starts_before_stop cs)
        × (unsubscribed s.effects ≡ to_nat (has_stop cs && ltb 0 (starts_before_stop cs)))
  unfolding new_manager
  counts-run local cs =
      let (subs, unsubs) = run-counts local new_manager cs (refl, refl, refl) in
      (ground (arith, subs), ground (arith, unsubs))
