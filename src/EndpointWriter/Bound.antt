-- ===== src/EndpointWriter/Bound.antt =====
-- The length of the queue and what a disconnected writer sends (endpoint_writer.cpp).
use protoactor_cpp.Base.{
  ℕ, ◌+◌, ◌<◌, ◌≤◌, inl, inr, Bool, List, [], ◌∷◌, ◌++◌, arith, length, length-append,
}
use protoactor_cpp.Pid.{Pid}
use protoactor_cpp.Serializer.{SerializerRegistry}
use protoactor_cpp.Wire.{RemoteDeliver, MessageBatch}
use protoactor_cpp.EndpointWriter.{
  Attempt, EndpointWriter, Received, started, stopping, endpoint_terminated, other_message,
  remote_deliver, new_writer, initialize, handle_disconnect, send_message_batch, handle_deliver,
  receive,
}
use protoactor_cpp.EndpointWriter.Queues.{lt_or_eq}
use protoactor_cpp.EndpointWriter.Batching.{waits, sends}

module _ {M : Type 0} (registry : SerializerRegistry M) (pid_at : ℕ → Pid)
    (written : MessageBatch → Bool) (batch_size : ℕ) where
  unfoldable pub run : (ℕ → Attempt) → ℕ → EndpointWriter M → List (Received M) → EndpointWriter M
  run attempts retries w [] = w
  run attempts retries w (m ∷ ms) =
      run attempts retries (receive registry pid_at written batch_size attempts retries m w) ms

  send-queue :
      (ds : List (RemoteDeliver M)) (w : EndpointWriter M)
      → length (send_message_batch registry pid_at written ds w).message_queue
        ≤ length w.message_queue
  unfolding send_message_batch handle_disconnect
  send-queue ds w = ground arith

  deliver-short :
      (d : RemoteDeliver M) (w : EndpointWriter M)
      → length w.message_queue < batch_size
      → length (handle_deliver registry pid_at written batch_size d w).message_queue < batch_size
  deliver-short d w short = elim (lt_or_eq (length w.message_queue + 1) batch_size (omega arith)) [
    | inl less ↦
        rw (waits registry pid_at written batch_size d w less)
          (omega (arith, less, length-append w.message_queue (d ∷ [])))
    | inr full ↦ rw (sends registry pid_at written batch_size d w full) (
        omega
          (arith, full, send-queue (w.message_queue ++ d ∷ []) (record w { message_queue = [] })))
  ]

  receive-short :
      (attempts : ℕ → Attempt) (retries : ℕ) (m : Received M) (w : EndpointWriter M)
      → 0 < batch_size
      → length w.message_queue < batch_size
      → length (receive registry pid_at written batch_size attempts retries m w).message_queue
        < batch_size
  unfolding receive handle_disconnect initialize
  receive-short attempts retries started w positive short = short
  receive-short attempts retries stopping w positive short = positive
  receive-short attempts retries endpoint_terminated w positive short = positive
  receive-short attempts retries other_message w positive short = short
  receive-short attempts retries (remote_deliver d) w positive short = deliver-short d w short

  run-short :
      (attempts : ℕ → Attempt) (retries : ℕ) (w : EndpointWriter M) (ms : List (Received M))
      → 0 < batch_size
      → length w.message_queue < batch_size
      → length (run attempts retries w ms).message_queue < batch_size
  unfolding run
  run-short attempts retries w [] positive short = short
  run-short attempts retries w (m ∷ ms) positive short =
      run-short attempts retries (receive registry pid_at written batch_size attempts retries m w)
        ms positive (receive-short attempts retries m w positive short)

  -- Whatever a writer receives, and whether it is connected or not and its writes succeed or not,
  -- its queue is shorter than the batch size, if that is positive.
  pub queue_bounded :
      (attempts : ℕ → Attempt) (retries : ℕ) (ms : List (Received M))
      → 0 < batch_size
      → length (run attempts retries new_writer ms).message_queue < batch_size
  unfolding new_writer
  queue_bounded attempts retries ms positive =
      run-short attempts retries new_writer ms positive positive
