-- ===== src/Wire/Examples.antt =====
-- A batch of three messages of one type from one sender, the second without a target.
use protoactor_cpp.Base.{ℕ, ◌≡◌, ◌≤◌, none, some, List, [], ◌∷◌, length, pos, negsuc}
use protoactor_cpp.Pid.{Pid}
use protoactor_cpp.Serializer.{Serializer, SerializerRegistry}
use protoactor_cpp.Wire.{RemoteDeliver, encode, handle_message_batch}
use protoactor_cpp.Wire.RoundTrip.{all_arrive, handle_message_batch-encode}
use protoactor_cpp.Wire.Bounds.{AllInRange, Small, encode-InRange}

abbrev numbers : Serializer ℕ
numbers = record {
  to_bytes = λ n. some (n ∷ []);
  from_bytes = λ name bytes. elim bytes [ [] ↦ none | n ∷ rest ↦ some n ];
  type_name = λ n. some (1 ∷ []);
}

abbrev pub registry : SerializerRegistry ℕ
registry = record { serializers = numbers ∷ []; default_serializer_id = pos 0 }

abbrev pub pid_at : ℕ → Pid
pid_at pointer = record { address = 5 ∷ []; id = pointer ∷ []; request_id = 0 }

abbrev target : Pid
target = record { address = 6 ∷ []; id = 7 ∷ []; request_id = 3 }

abbrev pub batch : List (RemoteDeliver ℕ)
batch =
    record { message = 10; target = some target; sender = some 2; serializer_id = pos 0 }
    ∷ record { message = 11; target = none; sender = none; serializer_id = pos 0 }
    ∷ record { message = 12; target = some target; sender = some 2; serializer_id = negsuc 0 }
    ∷ []

handle_message_batch-encode_example :
    handle_message_batch (6 ∷ []) (encode registry pid_at batch)
    ≡ all_arrive registry pid_at (6 ∷ []) batch
handle_message_batch-encode_example = handle_message_batch-encode registry pid_at (6 ∷ []) batch

encode-InRange_example :
    let b = encode registry pid_at batch in
    AllInRange b × Small b × (length b.envelopes ≤ length batch)
encode-InRange_example = encode-InRange registry pid_at batch
