-- ===== src/EndpointManager/Calls.antt =====
-- The calls of an endpoint manager and what each sends (endpoint_manager.cpp).
use protoactor_cpp.Base.{
  Bool, true, false, ◌||◌, Option, some, List, [], ◌∷◌, ◌++◌, Bytes, bytes_eq, bytes_beq,
  if◌then◌else◌, ℕ,
}
use protoactor_cpp.Pid.{Pid}
use protoactor_cpp.Messages.{TerminatedReason, stopped_reason, address_terminated}
use protoactor_cpp.EndpointManager.{
  EndpointManager, Sent, terminated_to, Event, ensure_connected, remove_endpoint, handle_event,
  remote_deliver, remote_watch, remote_unwatch, remote_terminate, start, stop,
}

pub data Call (M : Type 0) : Type 0 where
  starts : ℕ → Option Pid → Call M
  stops : Call M
  ensures removes : Bytes → Call M
  event : Event → Call M
  delivers : Option Pid → M → Option Pid → Call M
  watches unwatches terminates : Pid → Option Pid → Call M

module _ {M : Type 0} where
  unfoldable pub handle : (Bytes → Bool) → EndpointManager M → Call M → EndpointManager M
  handle local s (starts sub spawned) = start s sub spawned
  handle local s stops = stop s
  handle local s (ensures address) = (ensure_connected s address).0
  handle local s (removes address) = remove_endpoint s address
  handle local s (event e) = handle_event s e
  handle local s (delivers target message sender) = remote_deliver s target message sender
  handle local s (watches watcher watchee) = remote_watch local s watcher watchee
  handle local s (unwatches watcher watchee) = remote_unwatch s watcher watchee
  handle local s (terminates watcher watchee) = remote_terminate local s watcher watchee

  unfoldable pub run : (Bytes → Bool) → EndpointManager M → List (Call M) → EndpointManager M
  run local s [] = s
  run local s (c ∷ cs) = run local (handle local s c) cs

  abbrev pub is_stop : Call M → Bool
  is_stop stops = true
  is_stop _ = false

  abbrev pub notice : (Bytes → Bool) → Pid → Option Pid → TerminatedReason → List (Sent M)
  notice local watcher who reason =
      if local watcher.id then terminated_to watcher.id who reason ∷ [] else []

  -- What a call sends, from whether the manager is stopped alone.
  abbrev pub answer : (Bytes → Bool) → Bool → Call M → List (Sent M)
  answer local true (watches watcher watchee) = notice local watcher watchee stopped_reason
  answer local false (watches watcher (some watchee)) =
      if bytes_beq watchee.address []
      then []
      else notice local watcher (some watchee) address_terminated
  answer local false (terminates watcher watchee) = notice local watcher watchee stopped_reason
  answer local stopped c = []

  abbrev pub answers : (Bytes → Bool) → Bool → List (Call M) → List (Sent M)
  answers local stopped [] = []
  answers local stopped (c ∷ cs) = answer local stopped c ++ answers local (stopped || is_stop c) cs
