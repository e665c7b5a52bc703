-- ===== src/DeadLetter.antt =====
-- src/actor/deadletter.cpp: DeadLetterProcess and its two subscriptions to the event stream, and
-- SendUserMessage and SendSystemMessage of src/actor/pid.cpp, which lead there when the registry
-- does not know a PID. A handler that reads an object as another class than its own has undefined
-- behaviour. The line that is printed is left out.
use protoactor_cpp.Base.{Option, none, some, List, [], ◌∷◌, ◌++◌}
use protoactor_cpp.Messages.{
  Ref, Msg, stop, watch, TerminatedReason, stopped_reason, unwrap_envelope,
}

-- The events of the stream: DeadLetterEvent with its PID, message and sender, and any other class.
pub data Event (P : Type 0) : Type 0 where
  dead_letter_event : Option Ref → Option (Msg P) → Option Ref → Event P
  other_event : Event P

-- What a handler sends: DeadLetterResponse about a PID by the root context, and Terminated.
pub data Reply : Type 0 where
  response_to : Ref → Option Ref → Reply
  terminated_to : Ref → Option Ref → TerminatedReason → Reply

-- A run has a result, has undefined behaviour or throws an exception.
pub data Run (A : Type 0) : Type 0 where
  done : A → Run A
  undefined throws : Run A

infixl 5 ◌>>=◌
abbrev pub ◌>>=◌ : {A B : Type 0} → Run A → (A → Run B) → Run B
done a >>= next = next a
undefined >>= next = undefined
throws >>= next = throws

module _ {P : Type 0} where
  -- The first subscription; `static_pointer_cast` does not test the class.
  unfoldable pub reply_to_sender : Event P → Run (List Reply)
  reply_to_sender (dead_letter_event pid message none) = done []
  reply_to_sender (dead_letter_event pid message (some sender)) = done (response_to sender pid ∷ [])
  reply_to_sender other_event = undefined

  -- The second subscription, which takes every message for a Watch.
  unfoldable pub reply_to_watch : Event P → Run (List Reply)
  reply_to_watch (dead_letter_event pid none sender) = done []
  reply_to_watch (dead_letter_event pid (some (watch none)) sender) = done []
  reply_to_watch (dead_letter_event pid (some (watch (some watcher))) sender) =
      done (terminated_to watcher pid stopped_reason ∷ [])
  reply_to_watch _ = undefined

  -- Publish, with these two subscriptions.
  unfoldable pub publish : Event P → Run (List Reply)
  unfolding reply_to_sender reply_to_watch
  publish event = do
    first ← reply_to_sender event
    second ← reply_to_watch event
    done (first ++ second)

  unfoldable pub send_user_message : Option Ref → Option (Msg P) → Run (List Reply)
  unfolding publish
  send_user_message pid message =
      let (header, inner, sender) = unwrap_envelope message in
      publish (dead_letter_event pid inner sender)

  unfoldable pub send_system_message : Option Ref → Option (Msg P) → Run (List Reply)
  unfolding publish
  send_system_message pid message = publish (dead_letter_event pid message none)

-- Stop.
unfoldable pub stop_dead_letter : (P : Type 0) → Option Ref → Run (List Reply)
unfolding send_system_message
stop_dead_letter P pid = send_system_message {P = P} pid (some stop)
