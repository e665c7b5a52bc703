-- ===== src/RootContext.antt =====
-- src/actor/root_context.cpp: RootContext, with SendUserMessage, SendSystemMessage and Ref of PID
-- (src/actor/pid.cpp). `R` is a process other than the dead-letter process. The PID of a call that
-- returns a future is never null: the code follows it. The id that NextID counts up for a future
-- before it throws is left out.
pub mod Sending
mod Examples
use protoactor_cpp.Base.{
  ℕ, Bool, true, false, Option, none, some, List, [], ◌∷◌, ◌++◌, Bytes, if◌then◌else◌,
}
use protoactor_cpp.Pid.{Pid}
use protoactor_cpp.Messages.{Ref, Msg, poison_pill, stop, watch, unwatch, envelope, envelope_null}
use protoactor_cpp.Registry.{Registry, get, next_id}
use protoactor_cpp.DeadLetter.{
  Run, done, undefined, throws, ◌>>=◌, Reply, send_user_message, send_system_message,
  stop_dead_letter,
}
use protoactor_cpp.Spawn.{World, Spawned, default_spawner}

pub data Process (R : Type 0) : Type 0 where
  process : R → Process R
  dead_letter : Process R

-- The calls of a process's three methods, and what the dead-letter process sends.
pub data Sent (R P : Type 0) : Type 0 where
  user_message : R → Ref → Option (Msg P) → Sent R P
  system_message : R → Ref → Option (Msg P) → Sent R P
  stops : R → Ref → Sent R P
  replies : List Reply → Sent R P

-- NewFuture of src/actor/future.cpp: the constructor calls shared_from_this before any shared_ptr
-- owns the future, which throws std::bad_weak_ptr.
unfoldable pub new_future : Run Ref
new_future = throws

module _ {P : Type 0} where
  -- make_shared<MessageEnvelope>(nullptr, message, sender)
  abbrev pub new_envelope : Option (Msg P) → Option Ref → Msg P
  new_envelope none sender = envelope_null none sender
  new_envelope (some message) sender = envelope none message sender

module _ {R P : Type 0} where
  abbrev replied : Run (List Reply) → Run (List (Sent R P))
  replied run = run >>= λ rs. done (replies rs ∷ [])

  -- The process of PID::Ref, and SendUserMessage, SendSystemMessage and Stop of that process.
  abbrev user_to : Ref → Option (Msg P) → Process R × Bool → Run (List (Sent R P))
  user_to pid message (process p, found) = done (user_message p pid message ∷ [])
  user_to pid message (dead_letter, found) = replied (send_user_message (some pid) message)

  abbrev system_to : Ref → Option (Msg P) → Process R × Bool → Run (List (Sent R P))
  system_to pid message (process p, found) = done (system_message p pid message ∷ [])
  system_to pid message (dead_letter, found) = replied (send_system_message (some pid) message)

  abbrev stop_to : Ref → Process R × Bool → Run (List (Sent R P))
  stop_to pid (process p, found) = done (stops p pid ∷ [])
  stop_to pid (dead_letter, found) = replied (stop_dead_letter P (some pid))

  unfoldable pub pid_send_user : Registry (Process R) → Ref → Option (Msg P) → Run (List (Sent R P))
  pid_send_user r pid message = user_to pid message (get dead_letter r (some pid.pid))

  unfoldable pub pid_send_system :
      Registry (Process R) → Ref → Option (Msg P) → Run (List (Sent R P))
  pid_send_system r pid message = system_to pid message (get dead_letter r (some pid.pid))

  unfoldable pub request_with_custom_sender :
      Registry (Process R) → Option Ref → Option (Msg P) → Option Ref → Run (List (Sent R P))
  unfolding pid_send_user
  request_with_custom_sender r none message sender = done []
  request_with_custom_sender r (some pid) message sender =
      pid_send_user r pid (some (new_envelope message sender))

  unfoldable pub send : Registry (Process R) → Option Ref → Option (Msg P) → Run (List (Sent R P))
  unfolding pid_send_user
  send r none message = done []
  send r (some pid) message = pid_send_user r pid (some (new_envelope message none))

  unfoldable pub request :
      Registry (Process R) → Option Ref → Option (Msg P) → Run (List (Sent R P))
  unfolding pid_send_user
  request r none message = done []
  request r (some pid) message = pid_send_user r pid (some (new_envelope message none))

  unfoldable pub request_future :
      Registry (Process R) → Ref → Option (Msg P) → Run (List (Sent R P))
  unfolding pid_send_user new_future
  request_future r pid message = do
    future ← new_future
    pid_send_user r pid (some (new_envelope message (some future)))

module _ {R : Type 0} (P : Type 0) where
  unfoldable pub watch_pid : Registry (Process R) → Option Ref → Run (List (Sent R P))
  unfolding pid_send_system
  watch_pid r none = done []
  watch_pid r (some pid) = pid_send_system r pid (some (watch none))

  unfoldable pub unwatch_pid : Registry (Process R) → Option Ref → Run (List (Sent R P))
  unfolding pid_send_system
  unwatch_pid r none = done []
  unwatch_pid r (some pid) = pid_send_system r pid (some (unwatch none))

  unfoldable pub stop_pid : Registry (Process R) → Option Ref → Run (List (Sent R P))
  stop_pid r none = done []
  stop_pid r (some pid) = stop_to pid (get dead_letter r (some pid.pid))

  unfoldable pub poison_pid : Registry (Process R) → Option Ref → Run (List (Sent R P))
  unfolding pid_send_user
  poison_pid r none = done []
  poison_pid r (some pid) = pid_send_user r pid (some poison_pill)

  unfoldable pub stop_future : Registry (Process R) → Ref → Run (List (Sent R P))
  unfolding pid_send_system stop_pid new_future
  stop_future r pid = do
    future ← new_future
    watched ← pid_send_system r pid (some (watch (some future)))
    stopped ← stop_pid r (some pid)
    done (watched ++ stopped)

  unfoldable pub poison_future : Registry (Process R) → Ref → Run (List (Sent R P))
  unfolding pid_send_system poison_pid new_future
  poison_future r pid = do
    future ← new_future
    watched ← pid_send_system r pid (some (watch (some future)))
    poisoned ← poison_pid r (some pid)
    done (watched ++ poisoned)

module _ {P : Type 0} where
  -- SpawnNamed, for Props without a spawner of their own; the root context is no actor, so the new
  -- process is nobody's child.
  unfoldable pub spawn_named : World P → Bytes → P → Spawned P
  unfolding default_spawner
  spawn_named w id p = default_spawner w id p

  abbrev or_throw : Spawned P → World P × Option Pid
  or_throw (w, pid, err) = (w, if err then none else some pid)

  abbrev prefixed : World P → Bytes → P → Registry P × Option Bytes → World P × Option Pid
  prefixed w prefix p (r, none) = (record w { registry = r }, none)
  prefixed w prefix p (r, some id) =
      or_throw (default_spawner (record w { registry = r }) (prefix ++ id) p)

  -- No PID means that the exception is thrown.
  unfoldable pub spawn_prefix : World P → Bytes → P → World P × Option Pid
  spawn_prefix w prefix p = prefixed w prefix p (next_id w.registry)

  unfoldable pub spawn : World P → P → World P × Option Pid
  unfolding spawn_prefix
  spawn w p = spawn_prefix w [] p
