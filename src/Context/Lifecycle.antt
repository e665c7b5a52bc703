-- ===== src/Context/Lifecycle.antt =====
-- The life of an actor: its state, its watchers and its children (actor_context.cpp).
use protoactor_cpp.Base.{
  ℕ, ◌≡◌, ◌≢◌, refl, sym, ap, ◌∙◌, Option, none, some, List, [], ◌∷◌, ◌++◌, if◌then◌else◌, arith,
  All, length, ◌<◌,
}
use protoactor_cpp.Messages.{
  Ref, Msg, TerminatedReason, payload, started, stopping, receive_timeout, stop, poison_pill,
  restart, watch, unwatch, terminated, failure, continuation, continuation_null, envelope,
  envelope_null, unwrap_envelope, stopped_reason,
}
use protoactor_cpp.Context.{State, alive, restarting, stopped, send_system, Context, ensure_extras}
use protoactor_cpp.Context.Invoke.{
  is_stopping, invoke_user_message, process_message, handle_watch, handle_unwatch, handle_stop,
  handle_terminated, handle_failure, handle_restart, handle_continuation, handle_system,
  invoke_system_message, without, without_child, incarnate_actor, stash_of,
}
use protoactor_cpp.Context.Stash.{LeavesStash, drain_lifo}
use mathlib.Core.Option

-- What InvokeSystemMessage looks at: the message in the envelope, if it is in one that holds one.
abbrev pub actual : {P : Type 0} → Msg P → Msg P
actual (envelope h m s) = m
actual m = m

without_absent : (w : Ref) (ws : List Ref) → All (λ q. q.ptr ≢ w.ptr) ws → without w ws ≡ ws
without_absent w [] h = refl
without_absent w (q ∷ ws) h = ground (arith, h.0, without_absent w ws h.1)

module _ {A P : Type 0} (receive : Context A P → Context A P) (fresh : A)
    (chain : Option (Option (Msg P) → Context A P → Context A P)) where
  -- The actor and its middleware leave the state of the context alone.
  abbrev pub KeepsState : Type 0
  KeepsState =
      (c : Context A P) (m : Option (Msg P))
      → (process_message receive fresh chain c m).state ≡ c.state

  user-state :
      (c : Context A P) (m : Option (Msg P))
      → KeepsState
      → (invoke_user_message receive fresh chain c m).state ≡ c.state
  unfolding invoke_user_message
  user-state c m keeps = ground (arith, keeps c m)

  restart-alive :
      (fuel : ℕ) (c d : Context A P)
      → handle_restart receive fresh chain fuel c ≡ some d
      → d.state ≡ alive
  unfolding handle_restart
  restart-alive fuel c d e = ground arith

  -- The state after a system message: Stop and Restart decide it, whatever it was.
  abbrev pub next_state : Msg P → State → State
  next_state stop before = stopped
  next_state restart before = alive
  next_state m before = before

  terminated-state :
      (c : Context A P) (who : Ref) (reason : TerminatedReason)
      → KeepsState
      → (handle_terminated receive fresh chain c who reason).state ≡ c.state
  unfolding handle_terminated
  terminated-state c who reason keeps =
      user-state (without_child c who) (some (terminated (some who) reason)) keeps ∙ removed
    where
      removed : (without_child c who).state ≡ c.state
      removed = ground arith

  handle_system-next_state :
      (fuel : ℕ) (c d : Context A P) (m n : Msg P)
      → KeepsState
      → handle_system receive fresh chain fuel c m n ≡ some d
      → d.state ≡ next_state n c.state
  unfolding handle_system handle_watch handle_unwatch handle_stop handle_failure handle_continuation
  handle_system-next_state fuel c d m started keeps e = ground (arith, keeps c (some m))
  handle_system-next_state fuel c d m (terminated (some who) reason) keeps e =
      ground (arith, terminated-state c who reason keeps)
  handle_system-next_state fuel c d m restart keeps e = restart-alive fuel c d e
  handle_system-next_state fuel c d m stop keeps e = ground arith
  handle_system-next_state fuel c d m n keeps e = ground arith

  dispatch :
      (fuel : ℕ) (c : Context A P) (m : Msg P)
      → invoke_system_message receive fresh chain fuel c (some m)
        ≡ handle_system receive fresh chain fuel c m (actual m)
  unfolding invoke_system_message unwrap_envelope
  dispatch fuel c (envelope h m s) = refl
  dispatch fuel c m = refl

  stop-stopped :
      (fuel : ℕ) (c d : Context A P) (m : Msg P)
      → handle_system receive fresh chain fuel c m stop ≡ some d
      → (d.state ≡ stopped) × (d.log ≡ c.log) × (d.extras ≡ c.extras) × (d.actor ≡ c.actor)
  unfolding handle_system handle_stop
  stop-stopped fuel c d m e = ground arith

  -- The actor and its middleware leave the stash alone.
  abbrev pub KeepsStash : Type 0
  KeepsStash =
      (c : Context A P) (m : Option (Msg P))
      → stash_of (process_message receive fresh chain c m) ≡ stash_of c

  -- Restart empties the stash.
  abbrev pub next_stash : Msg P → List (Option (Msg P)) → List (Option (Msg P))
  next_stash restart before = []
  next_stash m before = before

  user-stash : KeepsStash → LeavesStash receive fresh chain
  unfolding invoke_user_message
  user-stash keeps c m = ground (arith, keeps c m)

  restart_ends :
      (fuel : ℕ) (c : Context A P)
      → LeavesStash receive fresh chain
      → length (stash_of c) < fuel
      → (d : Context A P) × (handle_restart receive fresh chain fuel c ≡ some d) × (stash_of d ≡ [])
  unfolding handle_restart incarnate_actor
  restart_ends fuel c leaves h =
      let c0 = record c { state = restarting } in
      let c1 = invoke_user_message receive fresh chain c0 (some Msg.restarting) in
      let c2 =
        invoke_user_message receive fresh chain (incarnate_actor receive fresh chain c1)
          (some started) in
      let same : stash_of c2 ≡ stash_of c =
        leaves (incarnate_actor receive fresh chain c1) (some started)
        ∙ leaves c0 (some Msg.restarting) in
      let (ends, empty) = drain_lifo receive fresh chain fuel c2 (stash_of c) leaves same h in
      (_, ap (Option.map {A = Context A P} (λ d. record d { state = alive })) ends, empty)

  terminated-stash :
      (c : Context A P) (who : Ref) (reason : TerminatedReason)
      → KeepsStash
      → stash_of (handle_terminated receive fresh chain c who reason) ≡ stash_of c
  unfolding handle_terminated
  terminated-stash c who reason keeps =
      user-stash keeps (without_child c who) (some (terminated (some who) reason)) ∙ ground arith

  -- A system message other than Restart.
  abbrev Kept : ℕ → Context A P → Msg P → Msg P → Type 0
  Kept fuel c m n =
      (d : Context A P) × (handle_system receive fresh chain fuel c m n ≡ some d)
      × (stash_of d ≡ next_stash n (stash_of c))

  handle_system_ends :
      (fuel : ℕ) (c : Context A P) (m n : Msg P)
      → KeepsStash
      → length (stash_of c) < fuel
      → Kept fuel c m n
  unfolding handle_system handle_watch handle_unwatch handle_stop handle_failure handle_continuation
  handle_system_ends fuel c m restart keeps h = restart_ends fuel c (user-stash keeps) h
  handle_system_ends fuel c m (payload x) keeps h = (_, refl, refl)
  handle_system_ends fuel c m started keeps h = (_, refl, keeps c (some m))
  handle_system_ends fuel c m stopping keeps h = (_, refl, refl)
  handle_system_ends fuel c m Msg.stopped keeps h = (_, refl, refl)
  handle_system_ends fuel c m Msg.restarting keeps h = (_, refl, refl)
  handle_system_ends fuel c m receive_timeout keeps h = (_, refl, refl)
  handle_system_ends fuel c m stop keeps h = (_, refl, refl)
  handle_system_ends fuel c m poison_pill keeps h = (_, refl, refl)
  handle_system_ends fuel c m (watch none) keeps h = (_, refl, refl)
  handle_system_ends fuel c m (watch (some w)) keeps h = (_, refl, ground arith)
  handle_system_ends fuel c m (unwatch none) keeps h = (_, refl, refl)
  handle_system_ends fuel c m (unwatch (some w)) keeps h = (_, refl, ground arith)
  handle_system_ends fuel c m (terminated none reason) keeps h = (_, refl, refl)
  handle_system_ends fuel c m (terminated (some w) reason) keeps h =
      (_, refl, terminated-stash c w reason keeps)
  handle_system_ends fuel c m (failure none reason p) keeps h = (_, refl, refl)
  handle_system_ends fuel c m (failure (some w) reason p) keeps h = (_, refl, ground arith)
  handle_system_ends fuel c m (continuation none p) keeps h = (_, refl, refl)
  handle_system_ends fuel c m (continuation (some k) p) keeps h = (_, refl, ground arith)
  handle_system_ends fuel c m (continuation_null none) keeps h = (_, refl, refl)
  handle_system_ends fuel c m (continuation_null (some k)) keeps h = (_, refl, ground arith)
  handle_system_ends fuel c m (envelope h' x w) keeps h = (_, refl, refl)
  handle_system_ends fuel c m (envelope_null h' w) keeps h = (_, refl, refl)

  -- For an actor and middleware that leave the state of the context and the stash alone:
  -- InvokeSystemMessage ends, Restart after a round for each stashed message; after Stop the actor
  -- is stopped, after Restart it is alive, whatever its state was, stopped too, and its stash is
  -- empty; each other system message leaves the state as it was, and each but Restart the stash.
  pub invoke_system_message-next_state :
      (fuel : ℕ) (c : Context A P) (m : Msg P)
      → KeepsState
      → KeepsStash
      → length (stash_of c) < fuel
      → (d : Context A P) × (invoke_system_message receive fresh chain fuel c (some m) ≡ some d)
        × (d.state ≡ next_state (actual m) c.state)
        × (stash_of d ≡ next_stash (actual m) (stash_of c))
  invoke_system_message-next_state fuel c m keeps leaves h =
      let (d, ends, stash) = handle_system_ends fuel c m (actual m) leaves h in
      (
        d,
        dispatch fuel c m ∙ ends,
        handle_system-next_state fuel c d m (actual m) keeps ends,
        stash,
      )

  -- Stop tells nobody: the watchers get no Terminated, the children are not stopped, the actor gets
  -- no Stopping or Stopped, and watchers and children stay in the lists. From then on the actor
  -- handles no user message.
  pub stop_silent :
      (fuel : ℕ) (c d : Context A P) (m : Msg P) (user : Option (Msg P))
      → actual m ≡ stop
      → invoke_system_message receive fresh chain fuel c (some m) ≡ some d
      → (d.log ≡ c.log)
        × (d.extras ≡ c.extras)
        × (d.actor ≡ c.actor)
        × (invoke_user_message receive fresh chain d user ≡ d)
  stop_silent fuel c d m user a e =
      let e' = sym (dispatch fuel c m) ∙ e in
      let (state, log, extras, actor) = stop-stopped fuel c d m (rw a at e') in
      (log, extras, actor, unfold invoke_user_message in rw state)

  watched :
      (fuel : ℕ) (c d : Context A P) (m : Msg P) (w : Ref)
      → handle_system receive fresh chain fuel c m (watch (some w)) ≡ some d
      → (d.log ≡ (
          if is_stopping c.state
          then c.log ++ send_system w (terminated c.self stopped_reason) ∷ []
          else c.log))
        × ((ensure_extras d).watchers ≡ (
            if is_stopping c.state
            then (ensure_extras c).watchers
            else (ensure_extras c).watchers ++ w ∷ []))
  unfolding handle_system handle_watch
  watched fuel c d m w e = (ground arith, ground arith)

  unwatched :
      (fuel : ℕ) (c d : Context A P) (m : Msg P) (w : Ref)
      → handle_system receive fresh chain fuel c m (unwatch (some w)) ≡ some d
      → (ensure_extras d).watchers ≡ without w (ensure_extras c).watchers
  unfolding handle_system handle_unwatch
  unwatched fuel c d m w e = ground arith

  -- A watcher of an actor that is not stopping is told nothing yet and is the last in the list; a
  -- watcher that comes too late is told at once that the actor is stopped.
  pub watch_told :
      (fuel : ℕ) (c d : Context A P) (m : Msg P) (w : Ref)
      → actual m ≡ watch (some w)
      → invoke_system_message receive fresh chain fuel c (some m) ≡ some d
      → (d.log ≡ (
          if is_stopping c.state
          then c.log ++ send_system w (terminated c.self stopped_reason) ∷ []
          else c.log))
        × ((ensure_extras d).watchers ≡ (
            if is_stopping c.state
            then (ensure_extras c).watchers
            else (ensure_extras c).watchers ++ w ∷ []))
  watch_told fuel c d m w a e = watched fuel c d m w (rw a at (sym (dispatch fuel c m) ∙ e))

  -- Unwatch takes out the entries that are the given pointer; a watcher behind another pointer
  -- stays, though its PID is the same.
  pub unwatch_pointer :
      (fuel : ℕ) (c d : Context A P) (m : Msg P) (w : Ref) (ws : List Ref)
      → actual m ≡ unwatch (some w)
      → invoke_system_message receive fresh chain fuel c (some m) ≡ some d
      → (ensure_extras c).watchers ≡ ws
      → All (λ q. q.ptr ≢ w.ptr) ws
      → (ensure_extras d).watchers ≡ ws
  unwatch_pointer fuel c d m w ws a e same others =
      unwatched fuel c d m w (rw a at (sym (dispatch fuel c m) ∙ e))
      ∙ ap (without w) same
      ∙ without_absent w ws others
