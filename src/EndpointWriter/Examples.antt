-- ===== src/EndpointWriter/Examples.antt =====
-- A writer that sends batches of two messages, and its attempts to connect.
use protoactor_cpp.Base.{
  ℕ, ◌<◌, refl, arith, Bool, true, false, none, some, List, [], ◌∷◌, length, eqb, not, pos,
}
use protoactor_cpp.Wire.{MessageBatch}
use protoactor_cpp.Wire.Examples.{registry, pid_at, batch}
use protoactor_cpp.EndpointWriter.{
  Attempt, EndpointWriter, Received, started, stopping, remote_deliver, new_writer, try_connect,
}
use protoactor_cpp.EndpointWriter.Connecting.{Outcome, try_connect-Outcome}
use protoactor_cpp.EndpointWriter.Batching.{deliver_all, Batched, deliver_all-Batched}
use protoactor_cpp.EndpointWriter.Bound.{run, queue_bounded}

abbrev up : EndpointWriter ℕ
up = record { connected = true; stream = true; message_queue = []; writes = [] }

abbrev always : MessageBatch → Bool
always b = true

deliver_all-Batched_example :
    Batched registry pid_at always 2 (6 ∷ []) batch (deliver_all registry pid_at always 2 batch up)
deliver_all-Batched_example =
    deliver_all-Batched registry pid_at always 2 (6 ∷ []) up batch (λ b. refl) (refl, refl) refl
      refl (omega arith)

-- The third attempt connects.
abbrev third : ℕ → Attempt
third i = record {
  channel = true;
  stub = true;
  stream = not (eqb i 0);
  request_written = true;
  response = some (some (eqb i 1));
}

try_connect-Outcome_example :
    Outcome third 0 5 (try_connect third 0 5 false).0 (try_connect third 0 5 false).1
try_connect-Outcome_example = try_connect-Outcome third 5 false

abbrev received : List (Received ℕ)
received =
    started
    ∷ remote_deliver
        (record { message = 10; target = some (pid_at 1); sender = none; serializer_id = pos 0 })
    ∷ stopping
    ∷ []

queue_bounded_example :
    length (run registry pid_at always 2 third 5 new_writer received).message_queue < 2
queue_bounded_example = queue_bounded registry pid_at always 2 third 5 received (omega arith)
