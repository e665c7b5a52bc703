-- ===== src/Context/Invoke.antt =====
-- src/actor/actor_context.cpp: how an ActorContext handles messages, its stash and its timer. The
-- actor is user code: `receive` is its Receive on the context, `fresh` what the producer makes, and
-- `chain` the receiver middleware, if there is any, which gets the wrapped message.
use protoactor_cpp.Base.{
  ℕ, zero, suc, Bool, true, false, not, Option, none, some, List, [], ◌∷◌, ◌++◌, eqb, if◌then◌else◌,
  keep,
}
use protoactor_cpp.Messages.{
  Ref, Msg, TerminatedReason, stopped_reason, started, watch, unwatch, stop, terminated, failure,
  restart, continuation, continuation_null, wrap_envelope, unwrap_envelope,
}
use mathlib.Core.Option
use protoactor_cpp.Context.{
  State, alive, restarting, stopping, stopped, send_system, continue_with, Context, emit,
  ensure_extras,
}

abbrev pub is_stopped : State → Bool
is_stopped stopped = true
is_stopped _ = false

-- state_ >= STATE_STOPPING.
abbrev pub is_stopping : State → Bool
is_stopping stopping = true
is_stopping stopped = true
is_stopping _ = false

-- std::remove compares the pointers.
abbrev pub without : Ref → List Ref → List Ref
without r = keep (λ q. not (eqb q.ptr r.ptr))

module _ {A P : Type 0} where
  abbrev pub stash_of : Context A P → List (Option (Msg P))
  stash_of c = (ensure_extras c).stash

  abbrev pub with_stash : Context A P → List (Option (Msg P)) → Context A P
  with_stash c ms = record c { extras = some (record (ensure_extras c) { stash = ms }) }

  -- Stash, while a message is handled.
  unfoldable pub stash : Context A P → Context A P
  stash c = with_stash c (c.message_or_envelope ∷ stash_of c)

  unfoldable pub handle_watch : Context A P → Ref → Context A P
  handle_watch c watcher =
      let x = ensure_extras c in
      if is_stopping c.state
      then emit c (send_system watcher (terminated c.self stopped_reason))
      else record c { extras = some (record x { watchers = x.watchers ++ watcher ∷ [] }) }

  unfoldable pub handle_unwatch : Context A P → Ref → Context A P
  handle_unwatch c watcher = elim c.extras [
    | none ↦ c
    | some x ↦ record c { extras = some (record x { watchers = without watcher x.watchers }) }
  ]

  unfoldable pub handle_stop : Context A P → Context A P
  handle_stop c = record (record c { state = stopping }) { state = stopped }

  abbrev pub without_child : Context A P → Ref → Context A P
  without_child c who = elim c.extras [
    | none ↦ c
    | some x ↦ record c { extras = some (record x { children = without who x.children }) }
  ]

  unfoldable pub handle_failure : Context A P → Msg P → Context A P
  handle_failure c m = elim c.parent [ none ↦ c | some p ↦ emit c (send_system p m) ]

  -- The continuation runs with the message of its ReenterAfter; its result is always empty.
  unfoldable pub handle_continuation : Context A P → P → Option (Msg P) → Context A P
  handle_continuation c k m =
      record (emit (record c { message_or_envelope = m }) (continue_with k)) {
        message_or_envelope = none;
      }

module _ {A P : Type 0} (receive : Context A P → Context A P) (fresh : A)
    (chain : Option (Option (Msg P) → Context A P → Context A P)) where
  unfoldable pub default_receive : Context A P → Context A P
  default_receive c = elim chain [
    | none ↦ receive c
    | some middleware ↦ middleware (wrap_envelope c.message_or_envelope) c
  ]

  unfoldable pub process_message : Context A P → Option (Msg P) → Context A P
  process_message c m = record (default_receive (record c { message_or_envelope = m })) {
    message_or_envelope = none;
  }

  unfoldable pub invoke_user_message : Context A P → Option (Msg P) → Context A P
  invoke_user_message c m = if is_stopped c.state then c else process_message c m

  unfoldable pub incarnate_actor : Context A P → Context A P
  incarnate_actor c = record c { state = alive; actor = fresh }

  unfoldable pub unstash : Context A P → Context A P
  unstash c = elim (stash_of c) [ [] ↦ c | m ∷ ms ↦ invoke_user_message (with_stash c ms) m ]

  -- The loop of UnstashAll and of HandleRestart, a round for each message; `none` means that the
  -- fuel ran out.
  unfoldable pub drain_stash : ℕ → Context A P → Option (Context A P)
  drain_stash zero c = none
  drain_stash (suc fuel) c = elim (stash_of c) [
    | [] ↦ some c
    | m ∷ ms ↦ drain_stash fuel (invoke_user_message (with_stash c ms) m)
  ]

  unfoldable pub unstash_all : ℕ → Context A P → Option (Context A P)
  unstash_all fuel c = drain_stash fuel c

  unfoldable pub handle_terminated : Context A P → Ref → TerminatedReason → Context A P
  handle_terminated c who reason =
      invoke_user_message (without_child c who) (some (terminated (some who) reason))

  unfoldable pub handle_restart : ℕ → Context A P → Option (Context A P)
  handle_restart fuel c =
      let c1 = invoke_user_message (record c { state = restarting }) (some Msg.restarting) in
      let c2 = invoke_user_message (incarnate_actor c1) (some started) in
      Option.map {A = Context A P} (λ d. record d { state = alive }) (drain_stash fuel c2)

  -- The casts of InvokeSystemMessage in their order, on the unwrapped message.
  unfoldable pub handle_system : ℕ → Context A P → Msg P → Msg P → Option (Context A P)
  handle_system fuel c m started = some (process_message c (some m))
  handle_system fuel c m (watch (some w)) = some (handle_watch c w)
  handle_system fuel c m (unwatch (some w)) = some (handle_unwatch c w)
  handle_system fuel c m stop = some (handle_stop c)
  handle_system fuel c m (terminated (some who) reason) = some (handle_terminated c who reason)
  handle_system fuel c m (failure (some who) reason message) =
      some (handle_failure c (failure (some who) reason message))
  handle_system fuel c m restart = handle_restart fuel c
  handle_system fuel c m (continuation (some k) message) =
      some (handle_continuation c k (some message))
  handle_system fuel c m (continuation_null (some k)) = some (handle_continuation c k none)
  handle_system fuel c m _ = some c

  unfoldable pub invoke_system_message : ℕ → Context A P → Option (Msg P) → Option (Context A P)
  invoke_system_message fuel c none = some c
  invoke_system_message fuel c (some m) = elim ((unwrap_envelope (some m)).1) [
    | none ↦ handle_system fuel c m m
    | some actual ↦ handle_system fuel c m actual
  ]
