-- ===== src/Wire.antt =====
-- The message batch on the wire: SendMessageBatch of src/remote/endpoint_writer.cpp writes it and
-- HandleMessageBatch of src/remote/grpc_service.cpp reads it. A sender is a pointer, here a number
-- that `pid_at` dereferences, since the writer's table of senders compares pointers. The `int32`
-- indices do not wrap: a batch has fewer than 2 ^ 31 messages. The reader assigns to RequestId of a PID,
-- which has no such member; it is read as request_id.
pub mod Indices
pub mod RoundTrip
pub mod Bounds
pub mod Examples
use protoactor_cpp.Base.{
  ℕ, zero, suc, ◌+◌, ◌-◌, Bool, true, false, ◌&&◌, Option, none, some, List, [], ◌∷◌, ◌++◌, Bytes,
  Eq, nat_eq, bytes_eq, bytes_beq, length, get_elem?, lookup, insert, ltb, leb, ℤ, pos, negsuc,
  if◌then◌else◌, not,
}
use protoactor_cpp.Pid.{Pid}
use protoactor_cpp.Serializer.{SerializerRegistry, serialize}

-- RemoteDeliver, whose header is not read.
pub record RemoteDeliver (M : Type 0) : Type 0 where
  pub message : M
  pub target : Option Pid
  pub sender : Option ℕ
  pub serializer_id : ℤ

-- The fields of the protobuf messages MessageEnvelope and MessageBatch; a request id that is not set
-- reads as 0, and a PID of `senders` has an address and an id.
pub record Envelope : Type 0 where
  pub type_id : ℕ
  pub message_data : Bytes
  pub target_index : ℕ
  pub sender_index : ℕ
  pub envelope_serializer : ℤ
  pub target_request_id : ℕ
  pub sender_request_id : ℕ

pub record MessageBatch : Type 0 where
  pub type_names : List Bytes
  pub targets : List Bytes
  pub senders : List (Bytes × Bytes)
  pub envelopes : List Envelope

abbrev pub empty_batch : MessageBatch
empty_batch = record { type_names = []; targets = []; senders = []; envelopes = [] }

-- The batch with the three tables that index it.
pub record Tables : Type 0 where
  pub type_name_map : List (Bytes × ℕ)
  pub target_map : List (Bytes × ℕ)
  pub sender_map : List (ℕ × ℕ)
  pub batch : MessageBatch

abbrev pub new_tables : Tables
new_tables = record { type_name_map = []; target_map = []; sender_map = []; batch = empty_batch }

-- The index of a key: the one that the table has, or else that of a new entry, counted from `first`.
unfoldable pub index_of :
    {A K : Type 0} ⦃e : Eq K⦄ → ℕ → K → A → List (K × ℕ) → List A → ℕ × List (K × ℕ) × List A
index_of first key entry table entries = elim (lookup key table) [
  | some index ↦ (index, table, entries)
  | none ↦
      let index = length entries + first in (index, insert key index table, entries ++ entry ∷ [])
]

abbrev pub id_or_minus_one : ℤ → ℤ
id_or_minus_one (pos id) = pos id
id_or_minus_one (negsuc id) = negsuc 0

module _ (pid_at : ℕ → Pid) where
  abbrev pub sender_request : Option ℕ → ℕ
  sender_request none = 0
  sender_request (some pointer) = (pid_at pointer).request_id

  -- The sender's index, 0 without a sender.
  abbrev pub sender_index_of :
      Option ℕ → List (ℕ × ℕ) → List (Bytes × Bytes) → ℕ × List (ℕ × ℕ) × List (Bytes × Bytes)
  sender_index_of none table entries = (0, table, entries)
  sender_index_of (some pointer) table entries =
      index_of 1 pointer ((pid_at pointer).address, (pid_at pointer).id) table entries

module _ {M : Type 0} (pid_at : ℕ → Pid) where
  abbrev pub new_envelope : RemoteDeliver M → Pid → Bytes → ℕ → ℕ → ℕ → Envelope
  new_envelope d target bytes type_id target_index sender_index = record {
    type_id = type_id;
    message_data = bytes;
    target_index = target_index;
    sender_index = sender_index;
    envelope_serializer = id_or_minus_one d.serializer_id;
    target_request_id = target.request_id;
    sender_request_id = sender_request pid_at d.sender;
  }

  abbrev pub envelope_tables : RemoteDeliver M → Pid → Bytes → Bytes → Tables → Tables
  envelope_tables d target bytes name t =
      let (type_id, type_name_map, type_names) =
        index_of 0 name name t.type_name_map t.batch.type_names in
      let (target_index, target_map, targets) =
        index_of 0 target.id target.id t.target_map t.batch.targets in
      let (sender_index, sender_map, senders) =
        sender_index_of pid_at d.sender t.sender_map t.batch.senders in
      record {
        type_name_map = type_name_map;
        target_map = target_map;
        sender_map = sender_map;
        batch = record {
          type_names = type_names;
          targets = targets;
          senders = senders;
          envelopes =
              t.batch.envelopes
              ++ new_envelope d target bytes type_id target_index sender_index ∷ [];
        };
      }

module _ {M : Type 0} (registry : SerializerRegistry M) (pid_at : ℕ → Pid) where
  -- One turn of the loop over the batch; an exception of the serializer skips the message.
  unfoldable pub add_deliver : RemoteDeliver M → Tables → Tables
  add_deliver d t = elim d.target [
    | none ↦ t
    | some target ↦ elim (serialize registry d.message (id_or_minus_one d.serializer_id)) [
      | none ↦ t
      | some (bytes, name) ↦ envelope_tables pid_at d target bytes name t
    ]
  ]

  unfoldable pub add_all : List (RemoteDeliver M) → Tables → Tables
  add_all [] t = t
  add_all (d ∷ ds) t = add_all ds (add_deliver d t)

  -- The batch that is written for the messages.
  unfoldable pub encode : List (RemoteDeliver M) → MessageBatch
  unfolding add_all
  encode ds = (add_all ds new_tables).batch

-- What the service hands to DeserializeAndDeliver.
pub record Received : Type 0 where
  pub payload : Bytes
  pub name : Bytes
  pub serializer : ℤ
  pub receiver : Pid
  pub from : Option Pid

-- `address` is the service's own.
abbrev pub target_of : Bytes → MessageBatch → Envelope → Option Pid
target_of address batch e = elim (get_elem? batch.targets e.target_index) [
  | none ↦ none
  | some id ↦ some (record { address = address; id = id; request_id = e.target_request_id })
]

abbrev pub sender_at : MessageBatch → ℕ → ℕ → Option Pid
sender_at batch zero request_id = none
sender_at batch (suc index) request_id = elim (get_elem? batch.senders index) [
  | none ↦ none
  | some (address, id) ↦ some (record { address = address; id = id; request_id = request_id })
]

abbrev pub type_name_of : MessageBatch → Envelope → Bytes
type_name_of batch e = elim (get_elem? batch.type_names e.type_id) [ none ↦ [] | some name ↦ name ]

abbrev pub received : Envelope → Bytes → Option Pid → Option Pid → List Received
received e name none from = []
received e name (some target) from =
    if bytes_beq name []
    then []
    else record {
      payload = e.message_data;
      name = name;
      serializer = e.envelope_serializer;
      receiver = target;
      from = from;
    }
      ∷ []

abbrev pub read_envelope : Bytes → MessageBatch → Envelope → List Received
read_envelope address batch e =
    received e (type_name_of batch e) (target_of address batch e)
      (sender_at batch e.sender_index e.sender_request_id)

abbrev pub read_envelopes : Bytes → MessageBatch → List Envelope → List Received
read_envelopes address batch [] = []
read_envelopes address batch (e ∷ es) =
    read_envelope address batch e ++ read_envelopes address batch es

unfoldable pub handle_message_batch : Bytes → MessageBatch → List Received
handle_message_batch address batch = read_envelopes address batch batch.envelopes
