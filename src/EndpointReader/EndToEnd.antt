-- ===== src/EndpointReader/EndToEnd.antt =====
-- From a batch's messages at the writer to what the reader delivers (endpoint_writer.cpp,
-- grpc_service.cpp, endpoint_reader.cpp, serializer.cpp).
use protoactor_cpp.Base.{
  ℕ, ◌≡◌, refl, sym, ap, ◌∙◌, inl, inr, Bool, true, false, Option, none, some, List, [], ◌∷◌, ◌++◌,
  append-nil, append_assoc, Bytes, bytes_beq, ℤ, pos, negsuc, All, is_some, if◌then◌else◌, arith,
  Option-cases, Bool-cases,
}
use protoactor_cpp.Pid.{Pid}
use protoactor_cpp.Messages.{
  Ref, Msg, payload, started, stopping, stopped, restarting, receive_timeout, stop, poison_pill,
  restart, watch, unwatch, terminated, failure, continuation, continuation_null, envelope,
  envelope_null, unwrap_envelope,
}
use protoactor_cpp.RootContext.{new_envelope}
use protoactor_cpp.RootContext.Sending.{unwrap-new_envelope}
use protoactor_cpp.Serializer.{get_serializer, serialize, deserialize}
use protoactor_cpp.Wire.{RemoteDeliver, Received, encode, id_or_minus_one}
use protoactor_cpp.Wire.RoundTrip.{arrived_sender, arrives, all_arrive, handle_message_batch-encode}
use protoactor_cpp.EndpointReader.{
  Messages, Delivered, user_message, made_sender, is_system_message, user_delivery, deliver,
  deserialize_and_deliver, deliver_received, deliver_batch,
}

abbrev pub is_negative : ℤ → Bool
is_negative (pos n) = false
is_negative (negsuc n) = true

minus_one : (id : ℤ) → is_negative id ≡ true → id_or_minus_one id ≡ negsuc 0
minus_one (pos n) h = ground arith
minus_one (negsuc n) h = refl

module _ {P : Type 0} where
  deserialize-minus_one :
      (registry : Messages P) (bytes name : Bytes) (id : ℤ)
      → is_negative id ≡ true
      → deserialize registry bytes name (id_or_minus_one id) ≡ none
  unfolding deserialize get_serializer
  deserialize-minus_one registry bytes name id h = rw (minus_one id h) refl

  -- The reader's serializer with this id reads what the writer's writes.
  abbrev pub RoundTrips : Messages P → Messages P → ℕ → Type 0
  RoundTrips registry registry' id =
      (m : Option (Msg P)) (bytes name : Bytes)
      → serialize registry m (pos id) ≡ some (bytes, name)
      → deserialize registry' bytes name (pos id) ≡ some m

  deliver_received-append :
      (local : Bytes → Bool) (made : Pid → Ref) (registry : Messages P) (xs ys : List Received)
      → deliver_received local made registry (xs ++ ys)
        ≡ deliver_received local made registry xs ++ deliver_received local made registry ys
  deliver_received-append local made registry [] ys = refl
  deliver_received-append local made registry (x ∷ xs) ys =
      ap
        (λ ds.
          deserialize_and_deliver local registry x.payload x.name x.serializer (made x.receiver)
            (made_sender made x.from)
          ++ ds)
        (deliver_received-append local made registry xs ys)
      ∙ sym (append_assoc _ (deliver_received local made registry xs) _)

module _ {P : Type 0} (local : Bytes → Bool) (made : Pid → Ref) (registry registry' : Messages P)
    (pid_at : ℕ → Pid) (address : Bytes) where
  abbrev to_target : ℕ → RemoteDeliver (Option (Msg P)) → Pid → List (Delivered P)
  to_target id d target = elim (serialize registry d.message (pos id)) [
    | none ↦ []
    | some (bytes, name) ↦
        if bytes_beq name []
        then []
        else deliver local (made (record target { address = address })) d.message
            (made_sender made (arrived_sender pid_at d.sender))
  ]

  -- What the reader should do for one message.
  abbrev pub delivery : ℕ → RemoteDeliver (Option (Msg P)) → List (Delivered P)
  delivery id d = elim d.target [ none ↦ [] | some target ↦ to_target id d target ]

  abbrev pub deliveries : ℕ → List (RemoteDeliver (Option (Msg P))) → List (Delivered P)
  deliveries id [] = []
  deliveries id (d ∷ ds) = delivery id d ++ deliveries id ds

  one_delivery :
      (id : ℕ) (d : RemoteDeliver (Option (Msg P)))
      → RoundTrips registry registry' id
      → d.serializer_id ≡ pos id
      → deliver_received local made registry' (arrives registry pid_at address d) ≡ delivery id d
  unfolding deserialize_and_deliver
  one_delivery id d trips same = elim (Option-cases d.target) [
    | inl e ↦ ground (arith, e)
    | inr (target, e) ↦ elim (Option-cases (serialize registry d.message (pos id))) [
      | inl f ↦ ground (arith, e, f, same)
      | inr ((bytes, name), f) ↦
          let last = append-nil (
            deliver local (made (record target { address = address })) d.message
              (made_sender made (arrived_sender pid_at d.sender))) in
          elim (Bool-cases (bytes_beq name [])) [
            | inl empty ↦ ground (arith, e, f, same, empty)
            | inr named ↦ ground (arith, e, f, same, named, trips d.message bytes name f, last)
          ]
    ]
  ]

  each_delivered :
      (id : ℕ) (ds : List (RemoteDeliver (Option (Msg P))))
      → RoundTrips registry registry' id
      → All (λ d. d.serializer_id ≡ pos id) ds
      → deliver_received local made registry' (all_arrive registry pid_at address ds)
        ≡ deliveries id ds
  each_delivered id [] trips same = refl
  each_delivered id (d ∷ ds) trips (first, rest) =
      deliver_received-append local made registry' (arrives registry pid_at address d)
        (all_arrive registry pid_at address ds)
      ∙ ap
          (λ xs.
            xs ++ deliver_received local made registry' (all_arrive registry pid_at address ds))
          (one_delivery id d trips first)
      ∙ ap (λ xs. delivery id d ++ xs) (each_delivered id ds trips rest)

  -- If the reader's serializer reads what the writer's writes and all messages of a batch name that
  -- serializer, then the batch delivers, in order, each message that has a target, serializes and
  -- has a type name: to its target at the reader's address and with its sender.
  pub deliver_batch-encode :
      (id : ℕ) (ds : List (RemoteDeliver (Option (Msg P))))
      → RoundTrips registry registry' id
      → All (λ d. d.serializer_id ≡ pos id) ds
      → deliver_batch local made registry' address (encode registry pid_at ds) ≡ deliveries id ds
  unfolding deliver_batch
  deliver_batch-encode id ds trips same =
      ap (deliver_received local made registry')
        (handle_message_batch-encode registry pid_at address ds)
      ∙ each_delivered id ds trips same

  none_delivered :
      (d : RemoteDeliver (Option (Msg P)))
      → is_negative d.serializer_id ≡ true
      → deliver_received local made registry' (arrives registry pid_at address d) ≡ []
  unfolding deserialize_and_deliver
  none_delivered d negative = elim (Option-cases d.target) [
    | inl e ↦ ground (arith, e)
    | inr (target, e) ↦
        elim (Option-cases (serialize registry d.message (id_or_minus_one d.serializer_id))) [
          | inl f ↦ ground (arith, e, f)
          | inr ((bytes, name), f) ↦
              let lost = deserialize-minus_one registry' bytes name d.serializer_id negative in
              elim (Bool-cases (bytes_beq name [])) [
                | inl empty ↦ ground (arith, e, f, empty)
                | inr named ↦ ground (arith, e, f, named, lost)
              ]
        ]
  ]

  -- A batch whose messages all name no serializer, as those of the endpoint manager do, delivers
  -- nothing: the writer takes the default serializer and sends -1 as its id, which no registry
  -- knows when the reader asks for it.
  pub deliver_batch_default_lost :
      (ds : List (RemoteDeliver (Option (Msg P))))
      → All (λ d. is_negative d.serializer_id ≡ true) ds
      → deliver_batch local made registry' address (encode registry pid_at ds) ≡ []
  unfolding deliver_batch
  deliver_batch_default_lost ds negative =
      ap (deliver_received local made registry')
        (handle_message_batch-encode registry pid_at address ds)
      ∙ all_lost ds negative
    where
      all_lost :
          (ds : List (RemoteDeliver (Option (Msg P))))
          → All (λ d. is_negative d.serializer_id ≡ true) ds
          → deliver_received local made registry' (all_arrive registry pid_at address ds) ≡ []
      all_lost [] negative = refl
      all_lost (d ∷ ds) (first, rest) =
          deliver_received-append local made registry' (arrives registry pid_at address d)
            (all_arrive registry pid_at address ds)
          ∙ ap
              (λ xs.
                xs ++ deliver_received local made registry' (all_arrive registry pid_at address ds))
              (none_delivered d first)
          ∙ all_lost ds rest

module _ {P : Type 0} where
  deliver_user :
      (local : Bytes → Bool) (target : Ref) (m : Msg P) (sender : Option Ref)
      → is_system_message m ≡ false
      → deliver local target (some m) sender ≡ user_delivery target (some m) sender
  unfolding deliver is_system_message
  deliver_user local target (payload x) sender user = refl
  deliver_user local target receive_timeout sender user = refl
  deliver_user local target poison_pill sender user = refl
  deliver_user local target (failure x y z) sender user = refl
  deliver_user local target (continuation x y) sender user = refl
  deliver_user local target (continuation_null x) sender user = refl
  deliver_user local target (envelope x y z) sender user = refl
  deliver_user local target (envelope_null x y) sender user = refl
  deliver_user local target started sender user = absurd (ground (arith, user))
  deliver_user local target stopping sender user = absurd (ground (arith, user))
  deliver_user local target stopped sender user = absurd (ground (arith, user))
  deliver_user local target restarting sender user = absurd (ground (arith, user))
  deliver_user local target stop sender user = absurd (ground (arith, user))
  deliver_user local target restart sender user = absurd (ground (arith, user))
  deliver_user local target (watch x) sender user = absurd (ground (arith, user))
  deliver_user local target (unwatch x) sender user = absurd (ground (arith, user))
  deliver_user local target (terminated x y) sender user = absurd (ground (arith, user))

  -- What an actor takes out of a user message that the reader delivers, when the message is no
  -- system message: without a remote sender the message itself, and with one the envelope of the
  -- message and the sender, since Send wraps it again. In both cases it sees no sender.
  pub deliver-unwrap :
      (local : Bytes → Bool) (target : Ref) (m : Msg P) (sender : Option Ref)
      → is_system_message m ≡ false
      → (e : Msg P) × (deliver local target (some m) sender ≡ user_message target e ∷ [])
        × (unwrap_envelope (some e) ≡ (
          none,
          (if is_some sender then some (new_envelope (some m) sender) else some m),
          none,
        ))
  deliver-unwrap local target m none user = (
    new_envelope (some m) none,
    deliver_user local target m none user,
    unwrap-new_envelope (some m) none,
  )
  deliver-unwrap local target m (some sender) user = (
    new_envelope (some (new_envelope (some m) (some sender))) none,
    deliver_user local target m (some sender) user,
    unwrap-new_envelope (some (new_envelope (some m) (some sender))) none,
  )
