-- ===== src/EndpointReader/Examples.antt =====
-- One message read with a serializer that is named and with one that is not.
use protoactor_cpp.Base.{
  ℕ, ◌≡◌, refl, Bool, true, false, Option, none, some, List, [], ◌∷◌, Bytes, pos, negsuc, is_some,
  if◌then◌else◌, arith,
}
use protoactor_cpp.Pid.{Pid}
use protoactor_cpp.Messages.{Ref, Msg, payload, unwrap_envelope}
use protoactor_cpp.RootContext.{new_envelope}
use protoactor_cpp.Serializer.{Serializer, get_serializer, serialize, deserialize}
use protoactor_cpp.Wire.{RemoteDeliver, encode}
use protoactor_cpp.EndpointReader.{
  Messages, user_message, is_system_message, deliver, deliver_batch, Incoming, message_batch,
  connect_request, disconnect_request, server_connection,
}
use protoactor_cpp.EndpointReader.EndToEnd.{
  RoundTrips, deliveries, deliver_batch-encode, deliver_batch_default_lost, deliver-unwrap,
}

-- Numbers are serialized, and nothing else.
abbrev number_bytes : Option (Msg ℕ) → Option Bytes
number_bytes (some (payload n)) = some (n ∷ [])
number_bytes m = none

abbrev number_of : Bytes → Bytes → Option (Option (Msg ℕ))
number_of name (n ∷ rest) = some (some (payload n))
number_of name [] = none

abbrev numbers : Serializer (Option (Msg ℕ))
numbers = record { to_bytes = number_bytes; from_bytes = number_of; type_name = λ m. some (1 ∷ []) }

abbrev registry : Messages ℕ
registry = record { serializers = numbers ∷ []; default_serializer_id = pos 0 }

registry-RoundTrips : RoundTrips registry registry 0
unfolding serialize deserialize get_serializer
registry-RoundTrips (some (payload n)) bytes name h = ground (arith, h)
registry-RoundTrips m bytes name h = ground (arith, h)

abbrev pid_at : ℕ → Pid
pid_at pointer = record { address = 5 ∷ []; id = pointer ∷ []; request_id = 0 }

abbrev made : Pid → Ref
made pid = record { ptr = 30; pid = pid }

abbrev everybody : Bytes → Bool
everybody name = true

abbrev named : List (RemoteDeliver (Option (Msg ℕ)))
named =
    record {
      message = some (payload 3);
      target = some (pid_at 7);
      sender = some 8;
      serializer_id = pos 0;
    }
    ∷ []

abbrev unnamed : List (RemoteDeliver (Option (Msg ℕ)))
unnamed =
    record {
      message = some (payload 3);
      target = some (pid_at 7);
      sender = some 8;
      serializer_id = negsuc 0;
    }
    ∷ []

deliver_batch-encode_example :
    deliver_batch everybody made registry (6 ∷ []) (encode registry pid_at named)
    ≡ deliveries everybody made registry registry pid_at (6 ∷ []) 0 named
deliver_batch-encode_example =
    deliver_batch-encode everybody made registry registry pid_at (6 ∷ []) 0 named
      registry-RoundTrips (refl, tt)

deliver_batch_default_lost_example :
    deliver_batch everybody made registry (6 ∷ []) (encode registry pid_at unnamed) ≡ []
deliver_batch_default_lost_example =
    deliver_batch_default_lost everybody made registry registry pid_at (6 ∷ []) unnamed (refl, tt)

user : is_system_message {P = ℕ} (payload 3) ≡ false
unfolding is_system_message
user = refl

deliver-unwrap_example :
    (e : Msg ℕ) × (deliver everybody (made (pid_at 7)) (some (payload 3)) (some (made (pid_at 8)))
      ≡ user_message (made (pid_at 7)) e ∷ [])
    × (unwrap_envelope (some e) ≡ (
      none,
      (if is_some (some (made (pid_at 8)))
          then some (new_envelope (some (payload 3)) (some (made (pid_at 8))))
          else some (payload 3)),
      none,
    ))
deliver-unwrap_example =
    deliver-unwrap everybody (made (pid_at 7)) (payload 3) (some (made (pid_at 8))) user

-- A member that is blocked sends a batch all the same.
abbrev stream : List Incoming
stream =
    connect_request (server_connection (9 ∷ [])) true
    ∷ message_batch (encode registry pid_at named)
    ∷ disconnect_request
    ∷ message_batch (encode registry pid_at unnamed)
    ∷ []
