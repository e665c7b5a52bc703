-- ===== src/Wire/RoundTrip.antt =====
-- A batch that is written is read back (endpoint_writer.cpp, grpc_service.cpp).
use protoactor_cpp.Base.{
  ℕ, suc, ◌≡◌, refl, sym, ap, ◌∙◌, inl, inr, Option, none, some, List, [], ◌∷◌, ◌++◌, append-nil,
  append_assoc, nat_eq, bytes_eq, Bytes, get_elem?, lookup, arith, Option-cases,
}
use protoactor_cpp.Pid.{Pid}
use protoactor_cpp.Serializer.{SerializerRegistry, serialize}
use protoactor_cpp.Wire.{
  RemoteDeliver, Envelope, MessageBatch, Tables, new_tables, index_of, id_or_minus_one,
  sender_request, sender_index_of, envelope_tables, add_deliver, add_all, encode, Received,
  target_of, sender_at, type_name_of, read_envelope, received, new_envelope, read_envelopes,
  handle_message_batch,
}
use protoactor_cpp.Wire.Indices.{Extends, Indexes, Indexed, index_of_lem}

abbrev pub arrived_sender : (ℕ → Pid) → Option ℕ → Option Pid
arrived_sender pid_at none = none
arrived_sender pid_at (some pointer) = some (pid_at pointer)

module _ {M : Type 0} (registry : SerializerRegistry M) (pid_at : ℕ → Pid) (address : Bytes) where
  abbrev arrival : RemoteDeliver M → Pid → Bytes → Bytes → List Received
  arrival d target bytes name =
      received (new_envelope pid_at d target bytes 0 0 0) name
        (some (record target { address = address })) (arrived_sender pid_at d.sender)

  -- What arrives of one message: nothing without a target, if it does not serialize or if its type
  -- has no name; otherwise its bytes, with the target at the service's address, and its sender.
  abbrev pub arrives : RemoteDeliver M → List Received
  arrives d = elim d.target [
    | none ↦ []
    | some target ↦ elim (serialize registry d.message (id_or_minus_one d.serializer_id)) [
      | none ↦ []
      | some (bytes, name) ↦ arrival d target bytes name
    ]
  ]

  abbrev pub all_arrive : List (RemoteDeliver M) → List Received
  all_arrive [] = []
  all_arrive (d ∷ ds) = arrives d ++ all_arrive ds

  abbrev pid_fields : ℕ → Bytes × Bytes
  pid_fields pointer = ((pid_at pointer).address, (pid_at pointer).id)

  abbrev pub Sound : Tables → Type 0
  Sound t =
      Indexed 0 (λ name. name) t.type_name_map t.batch.type_names
      × Indexed 0 (λ id. id) t.target_map t.batch.targets
      × Indexed 1 pid_fields t.sender_map t.batch.senders

  -- The other batch has the entries of the tables of this one, where they were.
  abbrev Grown : MessageBatch → MessageBatch → Type 0
  Grown b b' =
      Extends b.type_names b'.type_names
      × Extends b.targets b'.targets
      × Extends b.senders b'.senders

  -- However the tables grow, these are read for the envelopes.
  abbrev Reads : MessageBatch → List Envelope → List Received → Type 0
  Reads b es rs = (b' : MessageBatch) → Grown b b' → read_envelopes address b' es ≡ rs

  read_sender :
      (b : MessageBatch) (pointer index j : ℕ)
      → index ≡ suc j
      → get_elem? b.senders j ≡ some (pid_fields pointer)
      → sender_at b index (pid_at pointer).request_id ≡ some (pid_at pointer)
  read_sender b pointer index j at_j there = ground (arith, at_j, there)

  -- The sender's index, in tables that grow as the others.
  sender_index_of_lem :
      (sender : Option ℕ) (table : List (ℕ × ℕ)) (entries : List (Bytes × Bytes))
      → Indexed 1 pid_fields table entries
      → let (index, table', entries') = sender_index_of pid_at sender table entries in
        Indexed 1 pid_fields table' entries'
        × Extends entries entries'
        × ((b' : MessageBatch)
            → Extends entries' b'.senders
            → sender_at b' index (sender_request pid_at sender) ≡ arrived_sender pid_at sender)
  sender_index_of_lem none table entries good = (good, λ i a h. h, λ b' h. refl)
  sender_index_of_lem (some pointer) table entries good =
      let (table_good, grown, (j, at_j, there)) =
        index_of_lem 1 pid_fields pointer table entries good in
      (
        table_good,
        grown,
        λ b' h. read_sender b' pointer _ j (omega (arith, at_j)) (h j (pid_fields pointer) there),
      )

  read_envelopes-append :
      (b : MessageBatch) (es fs : List Envelope)
      → read_envelopes address b (es ++ fs)
        ≡ read_envelopes address b es ++ read_envelopes address b fs
  read_envelopes-append b [] fs = refl
  read_envelopes-append b (e ∷ es) fs =
      ap (λ rs. read_envelope address b e ++ rs) (read_envelopes-append b es fs)
      ∙ sym (
          append_assoc (read_envelope address b e) (read_envelopes address b es)
            (read_envelopes address b fs))

  read_name :
      (b : MessageBatch) (e : Envelope) (name : Bytes)
      → Indexes 0 (λ n. n) b.type_names name e.type_id
      → type_name_of b e ≡ name
  read_name b e name (j, at_j, there) = ground (arith, at_j, there)

  read_target :
      (b : MessageBatch) (e : Envelope) (id : Bytes)
      → Indexes 0 (λ i. i) b.targets id e.target_index
      → target_of address b e
        ≡ some (record { address = address; id = id; request_id = e.target_request_id })
  read_target b e id (j, at_j, there) = ground (arith, at_j, there)

  Grown-trans : (a b c : MessageBatch) → Grown a b → Grown b c → Grown a c
  Grown-trans a b c (n, t, s) (n', t', s') =
      (λ i x h. n' i x (n i x h), λ i x h. t' i x (t i x h), λ i x h. s' i x (s i x h))

  -- A turn keeps the tables sound, lets them grow and adds what arrives.
  abbrev Turns : Tables → Tables → List Received → Type 0
  Turns t t' rs =
      Sound t'
      × ((es : List Received)
          → Reads t.batch t.batch.envelopes es
          → Reads t'.batch t'.batch.envelopes (es ++ rs))

  append-reads :
      (b : MessageBatch) (es : List Envelope) (rs : List Received) (e : Envelope) (target : Pid)
      (name : Bytes) (from : Option Pid)
      → read_envelopes address b es ≡ rs
      → type_name_of b e ≡ name
      → target_of address b e ≡ some target
      → sender_at b e.sender_index e.sender_request_id ≡ from
      → read_envelopes address b (es ++ e ∷ []) ≡ rs ++ received e name (some target) from
  append-reads b es rs e target name from before n t s =
      read_envelopes-append b es (e ∷ [])
      ∙ ap (λ xs. xs ++ (read_envelope address b e ++ [])) before
      ∙ ap (λ xs. rs ++ xs) (append-nil (read_envelope address b e))
      ∙ ap
          (λ x.
            rs
            ++ received e x (target_of address b e)
                (sender_at b e.sender_index e.sender_request_id))
          n
      ∙ ap (λ x. rs ++ received e name x (sender_at b e.sender_index e.sender_request_id)) t
      ∙ ap (λ x. rs ++ received e name (some target) x) s

  envelope-Turns :
      (d : RemoteDeliver M) (target : Pid) (bytes name : Bytes) (t : Tables)
      → Sound t
      → Turns t (envelope_tables pid_at d target bytes name t) (arrival d target bytes name)
  envelope-Turns d target bytes name t (names, targets, senders) =
      let (names', more_names, (i, at_i, named)) =
        index_of_lem 0 (λ n. n) name t.type_name_map t.batch.type_names names in
      let (targets', more_targets, (j, at_j, targeted)) =
        index_of_lem 0 (λ i. i) target.id t.target_map t.batch.targets targets in
      let (senders', more_senders, sent) =
        sender_index_of_lem d.sender t.sender_map t.batch.senders senders in
      let e =
        new_envelope pid_at d target bytes
          (index_of 0 name name t.type_name_map t.batch.type_names).0
          (index_of 0 target.id target.id t.target_map t.batch.targets).0
          (sender_index_of pid_at d.sender t.sender_map t.batch.senders).0 in
      (
        (names', targets', senders'),
        λ rs reads b' (n, g, h).
            append-reads b' t.batch.envelopes rs e (record target { address = address }) name
              (arrived_sender pid_at d.sender)
              (reads b' (
                λ k a e. n k a (more_names k a e),
                λ k a e. g k a (more_targets k a e),
                λ k a e. h k a (more_senders k a e),
              ))
              (read_name b' e name (i, at_i, n i name named))
              (read_target b' e target.id (j, at_j, g j target.id targeted)) (sent b' h),
      )

  as_Turns :
      (t t' t'' : Tables) (rs rs' : List Received)
      → t' ≡ t''
      → rs ≡ rs'
      → Turns t t'' rs'
      → Turns t t' rs
  as_Turns t t' t'' rs rs' e f h = rw (e, f) h

  no_turn : (t : Tables) → Sound t → Turns t t []
  no_turn t sound = (sound, λ es reads b' grown. reads b' grown ∙ sym (append-nil es))

  add_deliver-Turns :
      (d : RemoteDeliver M) (t : Tables)
      → Sound t
      → Turns t (add_deliver registry pid_at d t) (arrives d)
  add_deliver-Turns d t sound = elim (Option-cases d.target) [
    | inl e ↦
        as_Turns t (add_deliver registry pid_at d t) t (arrives d) []
          (unfold add_deliver in ground (arith, e)) (ground (arith, e)) (no_turn t sound)
    | inr (target, e) ↦
        elim (Option-cases (serialize registry d.message (id_or_minus_one d.serializer_id))) [
          | inl f ↦
              as_Turns t (add_deliver registry pid_at d t) t (arrives d) []
                (unfold add_deliver in ground (arith, e, f)) (ground (arith, e, f))
                (no_turn t sound)
          | inr ((bytes, name), f) ↦
              as_Turns t (add_deliver registry pid_at d t)
                (envelope_tables pid_at d target bytes name t) (arrives d)
                (arrival d target bytes name) (unfold add_deliver in ground (arith, e, f))
                (ground (arith, e, f)) (envelope-Turns d target bytes name t sound)
        ]
  ]

  add_all-Reads :
      (ds : List (RemoteDeliver M)) (t : Tables) (es : List Received)
      → Sound t
      → Reads t.batch t.batch.envelopes es
      → let t' = add_all registry pid_at ds t in
        read_envelopes address t'.batch t'.batch.envelopes ≡ es ++ all_arrive ds
  unfolding add_all
  add_all-Reads [] t es sound reads =
      reads t.batch (λ k a h. h, λ k a h. h, λ k a h. h) ∙ sym (append-nil es)
  add_all-Reads (d ∷ ds) t es sound reads =
      let (sound', turn) = add_deliver-Turns d t sound in
      add_all-Reads ds (add_deliver registry pid_at d t) (es ++ arrives d) sound' (turn es reads)
      ∙ append_assoc es (arrives d) (all_arrive ds)

  pub new_tables-Sound : Sound new_tables
  unfolding lookup
  new_tables-Sound = (
    λ key index h. absurd (ground (arith, h)),
    λ key index h. absurd (ground (arith, h)),
    λ key index h. absurd (ground (arith, h)),
  )

  -- The batch that is written for any messages reads back as those that have a target, serialize and
  -- have a type name, in order: each with its bytes, its target, now at the reader's address, its
  -- sender, if it has one, and both request ids. Nothing else is read.
  pub handle_message_batch-encode :
      (ds : List (RemoteDeliver M))
      → handle_message_batch address (encode registry pid_at ds) ≡ all_arrive ds
  unfolding handle_message_batch encode
  handle_message_batch-encode ds = add_all-Reads ds new_tables [] new_tables-Sound (λ b' h. refl)
