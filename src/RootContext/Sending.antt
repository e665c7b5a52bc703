-- ===== src/RootContext/Sending.antt =====
-- What arrives of the root context's messages, at a process and at a PID without one
-- (root_context.cpp, deadletter.cpp).
use protoactor_cpp.Base.{
  ◌≡◌, refl, Bool, true, false, Option, none, some, List, [], ◌∷◌, ◌++◌, if◌then◌else◌, arith,
}
use protoactor_cpp.Messages.{
  Ref, Msg, payload, started, stopping, stopped, restarting, receive_timeout, stop, poison_pill,
  restart, watch, unwatch, terminated, failure, continuation, continuation_null, envelope,
  envelope_null, stopped_reason, unwrap_envelope,
}
use protoactor_cpp.Registry.{Registry, get}
use protoactor_cpp.DeadLetter.{
  Run, done, undefined, throws, Reply, response_to, terminated_to, dead_letter_event,
  reply_to_sender, reply_to_watch, publish, send_user_message, send_system_message,
  stop_dead_letter,
}
use protoactor_cpp.RootContext.{
  Process, process, dead_letter, Sent, user_message, replies, pid_send_user, new_envelope,
  request_with_custom_sender, send, request, request_future, stop_pid, poison_pid, stop_future,
  poison_future,
}

abbrev pub sender_reply : Ref → Option Ref → List Reply
sender_reply pid none = []
sender_reply pid (some sender) = response_to sender (some pid) ∷ []

module _ {P : Type 0} where
  abbrev pub null_or_watch : Option (Msg P) → Bool
  null_or_watch none = true
  null_or_watch (some (watch watcher)) = true
  null_or_watch _ = false

  abbrev pub watcher_reply : Ref → Option (Msg P) → List Reply
  watcher_reply pid (some (watch (some watcher))) =
      terminated_to watcher (some pid) stopped_reason ∷ []
  watcher_reply pid _ = []

  watch_lem :
      (pid : Ref) (message : Option (Msg P)) (sender : Option Ref)
      → reply_to_watch (dead_letter_event (some pid) message sender)
        ≡ (if null_or_watch message then done (watcher_reply pid message) else undefined)
  unfolding reply_to_watch
  watch_lem pid none sender = refl
  watch_lem pid (some (payload x)) sender = refl
  watch_lem pid (some started) sender = refl
  watch_lem pid (some stopping) sender = refl
  watch_lem pid (some stopped) sender = refl
  watch_lem pid (some restarting) sender = refl
  watch_lem pid (some receive_timeout) sender = refl
  watch_lem pid (some stop) sender = refl
  watch_lem pid (some poison_pill) sender = refl
  watch_lem pid (some restart) sender = refl
  watch_lem pid (some (watch none)) sender = refl
  watch_lem pid (some (watch (some w))) sender = refl
  watch_lem pid (some (unwatch x)) sender = refl
  watch_lem pid (some (terminated x y)) sender = refl
  watch_lem pid (some (failure x y z)) sender = refl
  watch_lem pid (some (continuation x y)) sender = refl
  watch_lem pid (some (continuation_null x)) sender = refl
  watch_lem pid (some (envelope x y z)) sender = refl
  watch_lem pid (some (envelope_null x y)) sender = refl

  publish_lem :
      (pid : Ref) (message : Option (Msg P)) (sender : Option Ref)
      → publish (dead_letter_event (some pid) message sender) ≡ (
          if null_or_watch message
          then done (sender_reply pid sender ++ watcher_reply pid message)
          else undefined)
  unfolding publish reply_to_sender
  publish_lem pid message none = ground (arith, watch_lem pid message none)
  publish_lem pid message (some sender) = ground (arith, watch_lem pid message (some sender))

  pub unwrap-new_envelope :
      (message : Option (Msg P)) (sender : Option Ref)
      → unwrap_envelope (some (new_envelope message sender)) ≡ (none, message, sender)
  unfolding unwrap_envelope
  unwrap-new_envelope none sender = refl
  unwrap-new_envelope (some m) sender = refl

module _ {R P : Type 0} where
  -- One user message arrived: this is what UnwrapEnvelope takes out of it.
  abbrev pub Arrives : R → Ref → Option (Msg P) → Option Ref → Run (List (Sent R P)) → Type 0
  Arrives p pid message sender run =
      (e : Msg P) × (run ≡ done (user_message p pid (some e) ∷ []))
      × (unwrap_envelope (some e) ≡ (none, message, sender))

  -- A user message to a PID that has a process arrives there once, with no header, as the message
  -- that was given: Send and Request give no sender, RequestWithCustomSender the given one.
  pub messages_arrive :
      (r : Registry (Process R)) (pid : Ref) (p : R) (found : Bool) (message : Option (Msg P))
      (sender : Option Ref)
      → get dead_letter r (some pid.pid) ≡ (process p, found)
      → Arrives p pid message none (send r (some pid) message)
        × Arrives p pid message none (request r (some pid) message)
        × Arrives p pid message sender (request_with_custom_sender r (some pid) message sender)
  unfolding send request request_with_custom_sender pid_send_user unwrap_envelope
  messages_arrive r pid p found none sender h = (
    (envelope_null none none, rw h refl, refl),
    (envelope_null none none, rw h refl, refl),
    (envelope_null none sender, rw h refl, refl),
  )
  messages_arrive r pid p found (some m) sender h = (
    (envelope none m none, rw h refl, refl),
    (envelope none m none, rw h refl, refl),
    (envelope none m sender, rw h refl, refl),
  )

  -- What the dead-letter process makes of a message and a sender.
  abbrev pub dead_lettered : Ref → Option (Msg P) → Option Ref → Run (List (Sent R P))
  dead_lettered pid message sender =
      if null_or_watch message
      then done (replies (sender_reply pid sender ++ watcher_reply pid message) ∷ [])
      else undefined

  user_dead :
      (r : Registry (Process R)) (pid : Ref) (found : Bool) (message : Option (Msg P))
      (sender : Option Ref)
      → get dead_letter r (some pid.pid) ≡ (dead_letter, found)
      → pid_send_user r pid (some (new_envelope message sender)) ≡ dead_lettered pid message sender
  unfolding pid_send_user send_user_message
  user_dead r pid found message sender h =
      ground (arith, h, publish_lem pid message sender, unwrap-new_envelope message sender)

  stop_dead :
      (r : Registry (Process R)) (pid : Ref) (found : Bool)
      → get dead_letter r (some pid.pid) ≡ (dead_letter, found)
      → stop_pid P r (some pid) ≡ undefined
  unfolding stop_pid stop_dead_letter send_system_message
  stop_dead r pid found h = ground (arith, h, publish_lem {P = P} pid (some stop) none)

  poison_dead :
      (r : Registry (Process R)) (pid : Ref) (found : Bool)
      → get dead_letter r (some pid.pid) ≡ (dead_letter, found)
      → poison_pid P r (some pid) ≡ undefined
  unfolding poison_pid pid_send_user send_user_message unwrap_envelope
  poison_dead r pid found h = ground (arith, h, publish_lem {P = P} pid (some poison_pill) none)

  -- What becomes of a message to a PID that has no process. One that is sent or requested is answered
  -- if it is null or a Watch: the sender, if there is one, gets a DeadLetterResponse and the Watch's
  -- watcher Terminated. Any other message has undefined behaviour, and so have Stop and Poison.
  -- RequestFuture, StopFuture and PoisonFuture throw when they make their future, and send nothing.
  pub dead_cases :
      (r : Registry (Process R)) (pid : Ref) (found : Bool) (message : Option (Msg P))
      (sender : Option Ref)
      → get dead_letter r (some pid.pid) ≡ (dead_letter, found)
      → (send r (some pid) message ≡ dead_lettered pid message none)
        × (request_with_custom_sender r (some pid) message sender
            ≡ dead_lettered pid message sender)
        × (stop_pid P r (some pid) ≡ undefined)
        × (poison_pid P r (some pid) ≡ undefined)
        × (request_future r pid message ≡ throws)
        × (stop_future P r pid ≡ throws)
        × (poison_future P r pid ≡ throws)
  unfolding request_future stop_future poison_future
  dead_cases r pid found message sender h = (
    unfold send in user_dead r pid found message none h,
    unfold request_with_custom_sender in user_dead r pid found message sender h,
    stop_dead r pid found h,
    poison_dead r pid found h,
    refl,
    refl,
    refl,
  )
