-- ===== src/EndpointReader/Stream.antt =====
-- The receive loop (grpc_service.cpp).
use protoactor_cpp.Base.{◌≡◌, refl, ap, Bool, true, false, List, [], ◌∷◌, Bytes, if◌then◌else◌}
use protoactor_cpp.Wire.{MessageBatch}
use protoactor_cpp.EndpointReader.{
  Connection, ConnectResponse, handle_connect_request, Incoming, message_batch, connect_request,
  disconnect_request, other_message, Reaction, handles, writes, receive,
}

-- What the loop reads: all up to a disconnect request or a response that is not written.
abbrev pub read_part : List Incoming → List Incoming
read_part [] = []
read_part (disconnect_request ∷ rest) = []
read_part (connect_request c written ∷ rest) =
    let later = read_part rest in connect_request c written ∷ (if written then later else [])
read_part (m ∷ rest) = m ∷ read_part rest

abbrev pub batches : List Incoming → List MessageBatch
batches [] = []
batches (message_batch b ∷ rest) = b ∷ batches rest
batches (_ ∷ rest) = batches rest

abbrev pub handled : List Reaction → List MessageBatch
handled [] = []
handled (handles b ∷ rest) = b ∷ handled rest
handled (writes r ∷ rest) = handled rest

abbrev pub responses : List Reaction → List ConnectResponse
responses [] = []
responses (handles b ∷ rest) = responses rest
responses (writes r ∷ rest) = r ∷ responses rest

abbrev pub requests : List Incoming → List Connection
requests [] = []
requests (connect_request c written ∷ rest) = c ∷ requests rest
requests (_ ∷ rest) = requests rest

abbrev pub answers : (Bytes → Bool) → Bytes → List Connection → List ConnectResponse
answers is_blocked own_id [] = []
answers is_blocked own_id (c ∷ cs) =
    handle_connect_request is_blocked own_id c ∷ answers is_blocked own_id cs

-- The loop handles every batch that it reads, in order, also after it has told a member that it is
-- blocked, and answers every connect request that it reads, in order. It reads up to a disconnect
-- request or a response that is not written.
pub receive_reads :
    (is_blocked : Bytes → Bool) (own_id : Bytes) (ms : List Incoming)
    → (handled (receive is_blocked own_id ms) ≡ batches (read_part ms))
      × (responses (receive is_blocked own_id ms)
          ≡ answers is_blocked own_id (requests (read_part ms)))
unfolding receive
receive_reads is_blocked own_id [] = (refl, refl)
receive_reads is_blocked own_id (message_batch b ∷ ms) =
    let (all, told) = receive_reads is_blocked own_id ms in (ap (λ bs. b ∷ bs) all, told)
receive_reads is_blocked own_id (disconnect_request ∷ ms) = (refl, refl)
receive_reads is_blocked own_id (other_message ∷ ms) = receive_reads is_blocked own_id ms
receive_reads is_blocked own_id (connect_request c true ∷ ms) =
    let (all, told) = receive_reads is_blocked own_id ms in
    (all, ap (λ rs. handle_connect_request is_blocked own_id c ∷ rs) told)
receive_reads is_blocked own_id (connect_request c false ∷ ms) = (refl, refl)
