-- ===== src/EndpointWriter.antt =====
-- src/remote/endpoint_writer.cpp: EndpointWriter, built with ENABLE_GRPC. gRPC is a parameter: what
-- each of its calls gives stands in an `Attempt` to connect, and `written` says of a batch whether
-- stream_->Write succeeds. The encoding of a batch is that of Wire. The receive thread is left out,
-- except for what ends its loop.
pub mod Connecting
pub mod Queues
pub mod Batching
pub mod Bound
mod Examples
use protoactor_cpp.Base.{
  ℕ, zero, suc, ◌+◌, Bool, true, false, not, ◌&&◌, ◌||◌, Option, none, some, List, [], ◌∷◌, ◌++◌,
  Bytes, length, take, drop, leb, ltb, if◌then◌else◌,
}
use protoactor_cpp.Pid.{Pid}
use protoactor_cpp.Serializer.{SerializerRegistry}
use protoactor_cpp.Wire.{RemoteDeliver, MessageBatch, encode}

-- What the calls of one InitializeInternal give. `response` is none if Read fails, and else the
-- ConnectResponse's `blocked`, if the message is one.
pub record Attempt : Type 0 where
  pub channel : Bool
  pub stub : Bool
  pub stream : Bool
  pub request_written : Bool
  pub response : Option (Option Bool)

abbrev not_blocked : Option (Option Bool) → Bool
not_blocked none = false
not_blocked (some none) = false
not_blocked (some (some blocked)) = not blocked

unfoldable pub initialize_internal : Attempt → Bool
initialize_internal a =
    if not a.channel
    then false
    else if not a.stub
    then false
    else if not a.stream
    then false
    else if not a.request_written
    then false
    else not_blocked a.response

pub record EndpointWriter (M : Type 0) : Type 0 where
  pub connected : Bool
  -- Whether stream_ is there.
  pub stream : Bool
  pub message_queue : List (RemoteDeliver M)
  -- The batches given to stream_->Write, in order.
  pub writes : List MessageBatch

-- Where stream_ stands after an attempt: it is set once there is a stub.
abbrev pub stream_after : Attempt → Bool → Bool
stream_after a stream = if a.channel && a.stub then a.stream else stream

-- The loop of Initialize: whether it connects, the attempts that it makes, at most `retries` more,
-- and whether stream_ is there.
unfoldable pub try_connect : (ℕ → Attempt) → ℕ → ℕ → Bool → Bool × ℕ × Bool
unfolding initialize_internal
try_connect attempts retry_count zero stream = (false, retry_count, stream)
try_connect attempts retry_count (suc retries) stream =
    let a = attempts retry_count in
    let rest = try_connect attempts (retry_count + 1) retries (stream_after a stream) in
    if initialize_internal a then (true, retry_count + 1, stream_after a stream) else rest

-- The messages that Receive tells apart.
pub data Received (M : Type 0) : Type 0 where
  started stopping endpoint_terminated other_message : Received M
  remote_deliver : RemoteDeliver M → Received M

abbrev pub is_nil : {A : Type 0} → List A → Bool
is_nil [] = true
is_nil (x ∷ xs) = false

module _ {M : Type 0} where
  unfoldable pub new_writer : EndpointWriter M
  new_writer = record { connected = false; stream = false; message_queue = []; writes = [] }

  unfoldable pub initialize : (ℕ → Attempt) → ℕ → EndpointWriter M → EndpointWriter M
  unfolding try_connect
  initialize attempts max_retry_count w =
      let (connected, made, stream) = try_connect attempts 0 max_retry_count w.stream in
      record w { connected = if connected then true else w.connected; stream = stream }

  unfoldable pub handle_disconnect : EndpointWriter M → EndpointWriter M
  handle_disconnect w = record w { connected = false; stream = false; message_queue = [] }

module _ {M : Type 0} (registry : SerializerRegistry M) (pid_at : ℕ → Pid)
    (written : MessageBatch → Bool) where
  abbrev write : MessageBatch → EndpointWriter M → EndpointWriter M
  write batch w =
      let w' = record w { writes = w.writes ++ batch ∷ [] } in
      if written batch then w' else handle_disconnect w'

  unfoldable pub send_message_batch : List (RemoteDeliver M) → EndpointWriter M → EndpointWriter M
  unfolding handle_disconnect
  send_message_batch ds w =
      let batch = encode registry pid_at ds in
      if not w.connected || is_nil ds
      then w
      else if not w.stream
      then w
      else if is_nil batch.envelopes
      then w
      else write batch w

module _ {M : Type 0} (registry : SerializerRegistry M) (pid_at : ℕ → Pid)
    (written : MessageBatch → Bool) (batch_size : ℕ) where
  -- `batch_size` is endpoint_writer_batch_size as a `size_t`.
  unfoldable pub send_batch : EndpointWriter M → EndpointWriter M
  unfolding send_message_batch
  send_batch w =
      let batch = take batch_size w.message_queue in
      let rest = record w { message_queue = drop batch_size w.message_queue } in
      if is_nil batch then rest else send_message_batch registry pid_at written batch rest

  unfoldable pub handle_deliver : RemoteDeliver M → EndpointWriter M → EndpointWriter M
  unfolding send_batch
  handle_deliver d w =
      let queued = record w { message_queue = w.message_queue ++ d ∷ [] } in
      if leb batch_size (length queued.message_queue) then send_batch queued else queued

  unfoldable pub receive : (ℕ → Attempt) → ℕ → Received M → EndpointWriter M → EndpointWriter M
  unfolding initialize handle_disconnect handle_deliver
  receive attempts max_retry_count started w = initialize attempts max_retry_count w
  receive attempts max_retry_count stopping w = handle_disconnect w
  receive attempts max_retry_count (remote_deliver d) w = handle_deliver d w
  receive attempts max_retry_count endpoint_terminated w = handle_disconnect w
  receive attempts max_retry_count other_message w = w
