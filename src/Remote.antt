-- ===== src/Remote.antt =====
-- src/remote/remote.cpp: Config, SendMessage, Shutdown and Start of Remote, without gRPC, and
-- src/remote/remote_process.cpp: RemoteProcess, the process that stands for every remote PID. The
-- endpoint manager is that of EndpointManager; `local` says whether the registry has a process of
-- that name. A user of SendMessage with a local PID gets a user message in its process.
use protoactor_cpp.Base.{
  ℕ, Bool, ◌||◌, Option, none, some, List, [], ◌∷◌, ◌++◌, Bytes, bytes_beq, is_some, if◌then◌else◌,
}
use protoactor_cpp.Pid.{Pid}
use protoactor_cpp.Messages.{
  Ref, Msg, watch, unwatch, envelope, envelope_null, Header, unwrap_envelope,
}
use protoactor_cpp.EndpointManager.{
  EndpointManager, stop, remote_deliver, remote_watch, remote_unwatch, new_manager,
}

-- The kinds are an association list, `A` is the type of Props.
pub record Config (A : Type 0) : Type 0 where
  pub host : Bytes
  pub port : ℕ
  pub advertised_host : Bytes
  pub endpoint_writer_batch_size : ℕ
  pub endpoint_writer_queue_size : ℕ
  pub endpoint_manager_batch_size : ℕ
  pub endpoint_manager_queue_size : ℕ
  pub kinds : List (Bytes × A)
  pub max_retry_count : ℕ

-- Start's configuration, before the options change it.
unfoldable pub new_config : {A : Type 0} → Bytes → ℕ → Config A
new_config host port = record {
  host = host;
  port = port;
  advertised_host = [];
  endpoint_writer_batch_size = 1000;
  endpoint_writer_queue_size = 1000000;
  endpoint_manager_batch_size = 1000;
  endpoint_manager_queue_size = 1000000;
  kinds = [];
  max_retry_count = 5;
}

-- `decimal` prints a number, as the stream does.
unfoldable pub config_address : {A : Type 0} → (ℕ → Bytes) → Config A → Bytes
config_address decimal c = c.host ++ (b':' ∷ decimal c.port)

-- The endpoint manager, with messages that may be null, and the user messages that local processes
-- were given, by their names.
pub record Remote (P : Type 0) : Type 0 where
  pub manager : EndpointManager (Option (Msg P))
  pub delivered : List (Bytes × Option (Msg P))

abbrev pid_of : Option Ref → Option Pid
pid_of none = none
pid_of (some r) = some r.pid

module _ {P : Type 0} where
  -- Start makes the manager and does not start it.
  unfoldable pub new_remote : Remote P
  new_remote = record { manager = new_manager; delivered = [] }

  -- Shutdown, without a gRPC server.
  unfoldable pub shutdown : Remote P → Remote P
  shutdown s = record s { manager = stop s.manager }

  abbrev wrapped : Option Header → Option (Msg P) → Option Ref → Msg P
  wrapped header none sender = envelope_null header sender
  wrapped header (some m) sender = envelope header m sender

  -- The message as it is, if there is neither a header nor a sender.
  abbrev local_message : Option Header → Option (Msg P) → Option Ref → Option (Msg P)
  local_message header message sender =
      if is_some header || is_some sender then some (wrapped header message sender) else message

  unfoldable pub send_message :
      (Bytes → Bool)
      → Remote P
      → Option Ref
      → Option Header
      → Option (Msg P)
      → Option Ref
      → Remote P
  send_message local s none header message sender = s
  send_message local s (some pid) header message sender =
      if bytes_beq pid.pid.address []
      then if local pid.pid.id
        then record s {
          delivered = s.delivered ++ (pid.pid.id, local_message header message sender) ∷ [];
        }
        else s
      else record s { manager = remote_deliver s.manager (some pid.pid) message (pid_of sender) }

  unfoldable pub send_user_message :
      (Bytes → Bool) → Remote P → Option Ref → Option (Msg P) → Remote P
  unfolding send_message
  send_user_message local s pid message =
      let (header, inner, sender) = unwrap_envelope message in
      send_message local s pid header inner sender

  unfoldable pub send_system_message : (Bytes → Bool) → Remote P → Option Ref → Msg P → Remote P
  unfolding send_message
  send_system_message local s pid (watch (some watcher)) = record s {
    manager = remote_watch local s.manager watcher.pid (pid_of pid);
  }
  send_system_message local s pid (unwatch (some watcher)) = record s {
    manager = remote_unwatch s.manager watcher.pid (pid_of pid);
  }
  send_system_message local s pid message = send_message local s pid none (some message) none

  unfoldable pub stop_process : (Bytes → Bool) → Remote P → Option Ref → Remote P
  unfolding send_system_message
  stop_process local s pid = send_system_message local s pid Msg.stop
