-- ===== src/EndpointManager/Answers.antt =====
-- What is sent for a history of calls (endpoint_manager.cpp).
use protoactor_cpp.Base.{
  ◌≡◌, refl, sym, ap, ◌∙◌, ◌⊎◌, inl, inr, Bool, true, false, ◌||◌, Option, none, some, List, [],
  ◌∷◌, ◌++◌, append-nil, append_assoc, Bytes, bytes_eq, lookup, lookup-erase, ℕ, arith,
}
use protoactor_cpp.Pid.{Pid}
use protoactor_cpp.EndpointManager.{
  EndpointManager, Sent, Event, endpoint_terminated, endpoint_connected, other_event, new_manager,
  ensure_connected, remove_endpoint, handle_event, remote_deliver, remote_watch, remote_unwatch,
  remote_terminate, start, stop, start_activator,
}
use protoactor_cpp.EndpointManager.Calls.{
  Call, starts, stops, ensures, removes, event, delivers, watches, unwatches, terminates, handle,
  run, is_stop, answer, answers,
}
use protoactor_cpp.EndpointManager.Growth.{
  Bare, Grows, quiet, ensure-Grows, watch-Grows, terminate-Grows, unwatch-Grows, deliver-Grows,
}

module _ {M : Type 0} where
  remove-Grows :
      (s : EndpointManager M) (address : Bytes)
      → Bare s
      → Grows s (remove_endpoint s address) [] s.stopped
  unfolding remove_endpoint
  remove-Grows s address bare = (
    sym (append-nil s.sent),
    λ other e. ground (arith, lookup-erase address other s.connections, bare other e),
    refl,
  )

  same-Grows :
      (s t : EndpointManager M)
      → Bare s
      → t.sent ≡ s.sent
      → t.connections ≡ s.connections
      → t.stopped ≡ s.stopped
      → Grows s t [] s.stopped
  same-Grows s t bare sent connections stopped = (
    sent ∙ sym (append-nil s.sent),
    λ address e h. bare address e (ground (arith, connections, h)),
    stopped,
  )

  start-Grows :
      (s : EndpointManager M) (sub : ℕ) (spawned : Option Pid)
      → Bare s
      → Grows s (start s sub spawned) [] s.stopped
  unfolding start start_activator
  start-Grows s sub none bare =
      same-Grows s (start s sub none) bare (ground arith) (ground arith) (ground arith)
  start-Grows s sub (some p) bare =
      same-Grows s (start s sub (some p)) bare (ground arith) (ground arith) (ground arith)

  stop_lem :
      (s : EndpointManager M)
      → ((stop s).sent ≡ s.sent)
        × ((stop s).stopped ≡ true)
        × (((stop s).connections ≡ s.connections) ⊎ ((stop s).connections ≡ []))
  unfolding stop
  stop_lem s = (ground arith, ground arith, ground arith)

  stop-Grows : (s : EndpointManager M) → Bare s → Grows s (stop s) [] true
  unfolding lookup
  stop-Grows s bare =
      let (sent, stopped, connections) = stop_lem s in
      (
        sent ∙ sym (append-nil s.sent),
        elim connections [
          | inl same ↦ λ address endpoint h. bare address endpoint (ground (arith, same, h))
          | inr cleared ↦ λ address endpoint h. ground (arith, cleared, h)
        ],
        stopped,
      )

  event-Grows :
      (s : EndpointManager M) (e : Event) → Bare s → Grows s (handle_event s e) [] s.stopped
  unfolding handle_event
  event-Grows s (endpoint_terminated address) bare = remove-Grows s address bare
  event-Grows s (endpoint_connected address) bare = ensure-Grows s address bare
  event-Grows s other_event bare = quiet s bare

  stays :
      (s t : EndpointManager M) (extra now : List (Sent M))
      → now ≡ extra
      → Grows s t extra s.stopped
      → Grows s t now (s.stopped || false)
  stays s t extra now e (sent, bare, stopped) = rw e (sent, bare, ground (arith, stopped))

  handle-Grows :
      (local : Bytes → Bool) (s : EndpointManager M) (c : Call M)
      → Bare s
      → Grows s (handle local s c) (answer local s.stopped c) (s.stopped || is_stop c)
  unfolding handle
  handle-Grows local s (starts sub spawned) bare =
      stays s (start s sub spawned) [] (answer local s.stopped (starts sub spawned)) (ground arith)
        (start-Grows s sub spawned bare)
  handle-Grows local s stops bare =
      let (sent, bare', stopped) = stop-Grows s bare in
      (sent ∙ ap (λ m. s.sent ++ m) (ground arith), bare', ground (arith, stopped))
  handle-Grows local s (ensures address) bare =
      stays s (ensure_connected s address).0 [] (answer local s.stopped (ensures address))
        (ground arith) (ensure-Grows s address bare)
  handle-Grows local s (removes address) bare =
      stays s (remove_endpoint s address) [] (answer local s.stopped (removes address))
        (ground arith) (remove-Grows s address bare)
  handle-Grows local s (event e) bare =
      stays s (handle_event s e) [] (answer local s.stopped (event e)) (ground arith)
        (event-Grows s e bare)
  handle-Grows local s (delivers target message sender) bare =
      stays s (remote_deliver s target message sender) []
        (answer local s.stopped (delivers target message sender)) (ground arith)
        (deliver-Grows s target message sender bare)
  handle-Grows local s (watches watcher watchee) bare =
      let now = answer local s.stopped (watches watcher watchee) in
      stays s (remote_watch local s watcher watchee) now now refl
        (watch-Grows local s watcher watchee bare)
  handle-Grows local s (unwatches watcher watchee) bare =
      stays s (remote_unwatch s watcher watchee) []
        (answer local s.stopped (unwatches watcher watchee)) (ground arith)
        (unwatch-Grows s watcher watchee bare)
  handle-Grows local s (terminates watcher watchee) bare =
      let now = answer local s.stopped (terminates watcher watchee) in
      stays s (remote_terminate local s watcher watchee) now now refl
        (terminate-Grows local s watcher watchee bare)

  run-Grows :
      (local : Bytes → Bool) (s : EndpointManager M) (cs : List (Call M))
      → Bare s
      → (run local s cs).sent ≡ s.sent ++ answers local s.stopped cs
  unfolding run
  run-Grows local s [] bare = sym (append-nil s.sent)
  run-Grows local s (c ∷ cs) bare =
      let (sent, bare', stopped) = handle-Grows local s c bare in
      run-Grows local (handle local s c) cs bare'
      ∙ ap (λ m. m ++ answers local (handle local s c).stopped cs) sent
      ∙ append_assoc s.sent (answer local s.stopped c) (answers local (handle local s c).stopped cs)
      ∙ ap (λ b. s.sent ++ (answer local s.stopped c ++ answers local b cs)) stopped

  -- All that a manager sends in a history of calls is what the calls answer by whether Stop was called
  -- before: nothing goes to an endpoint's writer or watcher, since no endpoint has one; a delivery or
  -- an unwatch sends nothing; a watch of a remote PID is answered at once by Terminated to the watcher,
  -- with its address gone before Stop and stopped after it; a terminate is so answered before Stop.
  pub run-answers :
      (local : Bytes → Bool) (cs : List (Call M))
      → (run local new_manager cs).sent ≡ answers local false cs
  unfolding new_manager lookup
  run-answers local cs = run-Grows local new_manager cs (λ address e h. ground (arith, h))
