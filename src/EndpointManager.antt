-- ===== src/EndpointManager.antt =====
-- src/remote/endpoint_manager.cpp: EndpointManager, which keeps one endpoint for a remote address and
-- routes deliveries and watches to its writer and watcher. `local` says whether the registry has a
-- process of that name, which GetLocal finds; a message is a pointer of type `M`. The watcher of a
-- call is never null: the code reads its id. The methods run one at a time.
pub mod Calls
pub mod Growth
pub mod Answers
pub mod Effects
pub mod Stopped
mod Examples
use protoactor_cpp.Base.{
  Bool, true, false, Option, none, some, List, [], ◌∷◌, ◌++◌, Bytes, bytes_eq, bytes_beq, lookup,
  insert, erase, if◌then◌else◌, ℕ, is_some, ◌||◌,
}
use protoactor_cpp.Pid.{Pid}
use protoactor_cpp.Messages.{TerminatedReason, stopped_reason, address_terminated}

-- A null pointer is `none`.
pub record Endpoint : Type 0 where
  pub writer : Option Pid
  pub watcher : Option Pid

-- make_shared<Endpoint>()
unfoldable pub new_endpoint : Endpoint
new_endpoint = record { writer = none; watcher = none }

unfoldable pub endpoint_address : Endpoint → Bytes
endpoint_address e = elim e.watcher [ none ↦ [] | some watcher ↦ watcher.address ]

-- The messages to an EndpointWatcher, each with the watcher and the watchee.
pub data Request : Type 0 where
  watch_request unwatch_request terminate_request : Pid → Pid → Request

-- What the manager sends: RemoteDeliver to a writer, a request to a watcher, Terminated to a local
-- process by its name.
pub data Sent (M : Type 0) : Type 0 where
  to_writer : Pid → Pid → M → Option Pid → Sent M
  to_watcher : Pid → Request → Sent M
  terminated_to : Bytes → Option Pid → TerminatedReason → Sent M

-- What Start and Stop do to other components: the subscription to the event stream, SpawnNamed of the
-- activator.
pub data Effect : Type 0 where
  subscribes unsubscribes : ℕ → Effect
  spawns_activator : Effect

pub record EndpointManager (M : Type 0) : Type 0 where
  pub connections : List (Bytes × Endpoint)
  pub stopped : Bool
  pub endpoint_sub : Option ℕ
  pub activator : Option Pid
  pub endpoint_supervisor : Option Pid
  pub sent : List (Sent M)
  pub effects : List Effect

-- The events of the endpoint subscription, and every other event.
pub data Event : Type 0 where
  endpoint_terminated endpoint_connected : Bytes → Event
  other_event : Event

abbrev pub writer_of : Option Endpoint → Option Pid
writer_of none = none
writer_of (some e) = e.writer

abbrev pub watcher_of : Option Endpoint → Option Pid
watcher_of none = none
watcher_of (some e) = e.watcher

module _ {M : Type 0} where
  unfoldable pub new_manager : EndpointManager M
  new_manager = record {
    connections = [];
    stopped = false;
    endpoint_sub = none;
    activator = none;
    endpoint_supervisor = none;
    sent = [];
    effects = [];
  }

  abbrev post : EndpointManager M → Sent M → EndpointManager M
  post s message = record s { sent = s.sent ++ message ∷ [] }

  abbrev does : EndpointManager M → Effect → EndpointManager M
  does s effect = record s { effects = s.effects ++ effect ∷ [] }

  unfoldable pub ensure_connected : EndpointManager M → Bytes → EndpointManager M × Option Endpoint
  ensure_connected s address =
      if s.stopped then (s, none) else elim (lookup address s.connections) [
        | some endpoint ↦ (s, some endpoint)
        | none ↦ (
          record s { connections = insert address new_endpoint s.connections },
          some new_endpoint,
        )
      ]

  unfoldable pub remove_endpoint : EndpointManager M → Bytes → EndpointManager M
  remove_endpoint s address = record s { connections = erase address s.connections }

  -- The handler and the predicate of the subscription.
  unfoldable pub handle_event : EndpointManager M → Event → EndpointManager M
  unfolding ensure_connected remove_endpoint
  handle_event s (endpoint_terminated address) = remove_endpoint s address
  handle_event s (endpoint_connected address) = (ensure_connected s address).0
  handle_event s other_event = s

  -- GetLocal, and Terminated as a system message if there is such a process.
  unfoldable pub tell_terminated :
      (Bytes → Bool) → EndpointManager M → Pid → Option Pid → TerminatedReason → EndpointManager M
  tell_terminated local s watcher who reason =
      if local watcher.id then post s (terminated_to watcher.id who reason) else s

  unfoldable pub remote_deliver :
      EndpointManager M → Option Pid → M → Option Pid → EndpointManager M
  unfolding ensure_connected
  remote_deliver s none message sender = s
  remote_deliver s (some target) message sender =
      let (t, endpoint) = ensure_connected s target.address in
      if s.stopped
      then s
      else if bytes_beq target.address []
      then s
      else elim (writer_of endpoint) [
        | none ↦ t
        | some writer ↦ post t (to_writer writer target message sender)
      ]

  unfoldable pub remote_watch :
      (Bytes → Bool) → EndpointManager M → Pid → Option Pid → EndpointManager M
  unfolding ensure_connected tell_terminated
  remote_watch local s watcher none =
      if s.stopped then tell_terminated local s watcher none stopped_reason else s
  remote_watch local s watcher (some watchee) =
      let (t, endpoint) = ensure_connected s watchee.address in
      if s.stopped
      then tell_terminated local s watcher (some watchee) stopped_reason
      else if bytes_beq watchee.address []
      then s
      else elim (watcher_of endpoint) [
        | none ↦ tell_terminated local t watcher (some watchee) address_terminated
        | some pid ↦ post t (to_watcher pid (watch_request watcher watchee))
      ]

  unfoldable pub remote_unwatch : EndpointManager M → Pid → Option Pid → EndpointManager M
  unfolding ensure_connected
  remote_unwatch s watcher none = s
  remote_unwatch s watcher (some watchee) =
      let (t, endpoint) = ensure_connected s watchee.address in
      if s.stopped
      then s
      else if bytes_beq watchee.address []
      then s
      else elim (watcher_of endpoint) [
        | none ↦ t
        | some pid ↦ post t (to_watcher pid (unwatch_request watcher watchee))
      ]

  unfoldable pub remote_terminate :
      (Bytes → Bool) → EndpointManager M → Pid → Option Pid → EndpointManager M
  unfolding ensure_connected tell_terminated
  remote_terminate local s watcher none =
      if s.stopped then s else tell_terminated local s watcher none stopped_reason
  remote_terminate local s watcher (some watchee) =
      let (t, endpoint) = ensure_connected s watchee.address in
      if s.stopped
      then s
      else if bytes_beq watchee.address []
      then tell_terminated local s watcher (some watchee) stopped_reason
      else elim (watcher_of endpoint) [
        | none ↦ tell_terminated local t watcher (some watchee) stopped_reason
        | some pid ↦ post t (to_watcher pid (terminate_request watcher watchee))
      ]

  -- `spawned` is what SpawnNamed returns, `none` with an error.
  unfoldable pub start_activator : EndpointManager M → Option Pid → EndpointManager M
  start_activator s spawned = elim spawned [
    | none ↦ does s spawns_activator
    | some pid ↦ record (does s spawns_activator) { activator = some pid }
  ]

  -- `sub` is the subscription that the event stream returns. StartSupervisor does nothing.
  unfoldable pub start : EndpointManager M → ℕ → Option Pid → EndpointManager M
  unfolding start_activator
  start s sub spawned =
      if s.stopped
      then s
      else start_activator (record (does s (subscribes sub)) { endpoint_sub = some sub }) spawned

  abbrev pub stop_subscription : EndpointManager M → EndpointManager M
  stop_subscription s = elim s.endpoint_sub [
    | none ↦ s
    | some sub ↦ record (does s (unsubscribes sub)) { endpoint_sub = none }
  ]

  -- Whether StopActivator throws: with an activator, StopFuture throws in NewFuture before it sends.
  abbrev pub stop_activator : EndpointManager M → Bool
  stop_activator s = is_some s.activator

  -- Whether StopSupervisor throws, for the same reason.
  abbrev pub stop_supervisor : EndpointManager M → Bool
  stop_supervisor s = is_some s.endpoint_supervisor

  -- The connections are cleared if neither throws.
  unfoldable pub stop : EndpointManager M → EndpointManager M
  stop s =
      let r = stop_subscription (record s { stopped = true }) in
      if s.stopped
      then s
      else if stop_activator r || stop_supervisor r
      then r
      else record r { connections = [] }
