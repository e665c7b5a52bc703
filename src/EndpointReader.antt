-- ===== src/EndpointReader.antt =====
-- src/remote/endpoint_reader.cpp: EndpointReader, and src/remote/grpc_service.cpp: the receive loop of
-- GrpcService, which hands it each message of a batch. `local` says whether the registry has a
-- process of that name and `made` is the object that make_shared gives for a PID.
pub mod EndToEnd
pub mod Stream
mod Examples
use protoactor_cpp.Base.{
  ℕ, Bool, true, false, Option, none, some, List, [], ◌∷◌, ◌++◌, Bytes, bytes_beq, any, ℤ,
  if◌then◌else◌,
}
use protoactor_cpp.Pid.{Pid}
use protoactor_cpp.Messages.{
  Ref, Msg, payload, started, stopping, stopped, restarting, stop, restart, watch, unwatch,
  terminated,
}
use protoactor_cpp.RootContext.{new_envelope}
use protoactor_cpp.Serializer.{SerializerRegistry, deserialize}
use protoactor_cpp.Wire.{MessageBatch, Received, handle_message_batch}

-- A message may be a null pointer.
abbrev pub Messages : Type 0 → Type 0
Messages P = SerializerRegistry (Option (Msg P))

-- What a message leads to: RemoteTerminate of the endpoint manager, SendSystemMessage of a process,
-- and the user message that the root context's Send makes.
pub data Delivered (P : Type 0) : Type 0 where
  remote_terminate : Ref → Option Ref → Delivered P
  system_message : Ref → Msg P → Delivered P
  user_message : Ref → Msg P → Delivered P

abbrev pub made_sender : (Pid → Ref) → Option Pid → Option Ref
made_sender made none = none
made_sender made (some pid) = some (made pid)

module _ {P : Type 0} where
  unfoldable pub is_system_message : Msg P → Bool
  is_system_message (watch watcher) = true
  is_system_message (unwatch watcher) = true
  is_system_message (terminated who reason) = true
  is_system_message stop = true
  is_system_message restart = true
  is_system_message started = true
  is_system_message stopping = true
  is_system_message stopped = true
  is_system_message restarting = true
  is_system_message _ = false

  -- The two calls of Send.
  abbrev pub user_delivery : Ref → Option (Msg P) → Option Ref → List (Delivered P)
  user_delivery target message none = user_message target (new_envelope message none) ∷ []
  user_delivery target message (some sender) =
      user_message target (new_envelope (some (new_envelope message (some sender))) none) ∷ []

  abbrev other_delivery : (Bytes → Bool) → Ref → Msg P → Option Ref → List (Delivered P)
  other_delivery local target message sender =
      if is_system_message message
      then if local target.pid.id then system_message target message ∷ [] else []
      else user_delivery target (some message) sender

  -- The body of the `try` once the message is deserialized.
  unfoldable pub deliver : (Bytes → Bool) → Ref → Option (Msg P) → Option Ref → List (Delivered P)
  unfolding is_system_message
  deliver local target none sender = user_delivery target none sender
  deliver local target (some (terminated who reason)) sender = remote_terminate target who ∷ []
  deliver local target (some message) sender = other_delivery local target message sender

  -- An exception of the serializer is logged.
  unfoldable pub deserialize_and_deliver :
      (Bytes → Bool) → Messages P → Bytes → Bytes → ℤ → Ref → Option Ref → List (Delivered P)
  unfolding deliver
  deserialize_and_deliver local registry bytes name id target sender =
      elim (deserialize registry bytes name id) [
        | none ↦ []
        | some message ↦ deliver local target message sender
      ]

  abbrev pub deliver_received :
      (Bytes → Bool) → (Pid → Ref) → Messages P → List Received → List (Delivered P)
  deliver_received local made registry [] = []
  deliver_received local made registry (r ∷ rs) =
      deserialize_and_deliver local registry r.payload r.name r.serializer (made r.receiver)
        (made_sender made r.from)
      ++ deliver_received local made registry rs

  -- HandleMessageBatch as a whole; `address` is the system's own.
  unfoldable pub deliver_batch :
      (Bytes → Bool) → (Pid → Ref) → Messages P → Bytes → MessageBatch → List (Delivered P)
  deliver_batch local made registry address batch =
      deliver_received local made registry (handle_message_batch address batch)

-- ConnectRequest: a server connection has a member id.
pub data Connection : Type 0 where
  server_connection : Bytes → Connection
  client_connection no_connection : Connection

pub record ConnectResponse : Type 0 where
  pub member_id : Bytes
  pub blocked : Bool

-- `is_blocked` is IsBlocked of the block list.
unfoldable pub handle_connect_request : (Bytes → Bool) → Bytes → Connection → ConnectResponse
handle_connect_request is_blocked own_id (server_connection member) = record {
  member_id = own_id;
  blocked = is_blocked member;
}
handle_connect_request is_blocked own_id client_connection = record {
  member_id = own_id;
  blocked = false;
}
handle_connect_request is_blocked own_id no_connection = record { member_id = []; blocked = false }

-- What the stream reads. A connect request comes with whether the write of its response succeeds.
pub data Incoming : Type 0 where
  message_batch : MessageBatch → Incoming
  connect_request : Connection → Bool → Incoming
  disconnect_request other_message : Incoming

pub data Reaction : Type 0 where
  handles : MessageBatch → Reaction
  writes : ConnectResponse → Reaction

-- The loop of Receive, until the stream has no more to read.
unfoldable pub receive : (Bytes → Bool) → Bytes → List Incoming → List Reaction
unfolding handle_connect_request
receive is_blocked own_id [] = []
receive is_blocked own_id (message_batch b ∷ rest) = handles b ∷ receive is_blocked own_id rest
receive is_blocked own_id (connect_request c written ∷ rest) =
    let later = receive is_blocked own_id rest in
    writes (handle_connect_request is_blocked own_id c) ∷ (if written then later else [])
receive is_blocked own_id (disconnect_request ∷ rest) = []
receive is_blocked own_id (other_message ∷ rest) = receive is_blocked own_id rest
