-- ===== src/EndpointWriter/Batching.antt =====
-- When queued messages are written (endpoint_writer.cpp).
use protoactor_cpp.Base.{
  ℕ, ◌+◌, ◌*◌, ◌<◌, ◌≡◌, inl, inr, refl, sym, ap, ◌∙◌, Bool, true, false, List, [], ◌∷◌, ◌++◌,
  append-nil, append_assoc, arith, Bool-cases, Bytes, length, length-append,
}
use protoactor_cpp.Pid.{Pid}
use protoactor_cpp.Serializer.{SerializerRegistry}
use protoactor_cpp.Wire.{RemoteDeliver, MessageBatch, read_envelopes, encode, handle_message_batch}
use protoactor_cpp.Wire.RoundTrip.{arrives, all_arrive, handle_message_batch-encode}
use protoactor_cpp.EndpointWriter.{
  EndpointWriter, is_nil, send_message_batch, send_batch, handle_deliver,
}
use protoactor_cpp.EndpointWriter.Queues.{
  lt_or_eq, take-all, drop-all, is_nil-eq, is_nil-snoc, read_all, read_all-snoc,
}

module _ {M : Type 0} (registry : SerializerRegistry M) (pid_at : ℕ → Pid)
    (written : MessageBatch → Bool) (batch_size : ℕ) where
  unfoldable pub deliver_all : List (RemoteDeliver M) → EndpointWriter M → EndpointWriter M
  deliver_all [] w = w
  deliver_all (d ∷ ds) w = deliver_all ds (handle_deliver registry pid_at written batch_size d w)

  pub waits :
      (d : RemoteDeliver M) (w : EndpointWriter M)
      → length w.message_queue + 1 < batch_size
      → handle_deliver registry pid_at written batch_size d w
        ≡ record w { message_queue = w.message_queue ++ d ∷ [] }
  unfolding handle_deliver
  waits d w short = ground (arith, short, length-append w.message_queue (d ∷ []))

  pub sends :
      (d : RemoteDeliver M) (w : EndpointWriter M)
      → length w.message_queue + 1 ≡ batch_size
      → handle_deliver registry pid_at written batch_size d w
        ≡ send_message_batch registry pid_at written
            (w.message_queue ++ d ∷ [])
            (record w { message_queue = [] })
  unfolding handle_deliver send_batch
  sends d w full =
      let q = w.message_queue ++ d ∷ [] in
      let size = length-append w.message_queue (d ∷ []) in
      ground (
        arith,
        full,
        size,
        take-all batch_size q (omega (arith, size)),
        drop-all batch_size q (omega (arith, size)),
        is_nil-snoc w.message_queue d,
      )

  -- Connected, with a stream.
  abbrev pub Open : EndpointWriter M → Type 0
  Open w = (w.connected ≡ true) × (w.stream ≡ true)

  -- What a batch that is sent leaves: it can be read, and nothing else changes.
  abbrev Writes : Bytes → EndpointWriter M → List (RemoteDeliver M) → EndpointWriter M → Type 0
  Writes address w ds w' =
      Open w'
      × (w'.message_queue ≡ w.message_queue)
      × (read_all address w'.writes
          ≡ read_all address w.writes ++ all_arrive registry pid_at address ds)

  nothing_read :
      (address : Bytes) (ds : List (RemoteDeliver M))
      → is_nil (encode registry pid_at ds).envelopes ≡ true
      → all_arrive registry pid_at address ds ≡ []
  nothing_read address ds empty =
      sym (handle_message_batch-encode registry pid_at address ds)
      ∙ (unfold handle_message_batch in
          ap (read_envelopes address (encode registry pid_at ds))
            (is_nil-eq (encode registry pid_at ds).envelopes empty))

  send-Writes :
      (address : Bytes) (w : EndpointWriter M) (ds : List (RemoteDeliver M))
      → ((b : MessageBatch) → written b ≡ true)
      → Open w
      → is_nil ds ≡ false
      → Writes address w ds (send_message_batch registry pid_at written ds w)
  unfolding send_message_batch
  send-Writes address w ds always (up, stream) some_ds =
      let b = encode registry pid_at ds in
      elim (Bool-cases (is_nil b.envelopes)) [
        | inl empty ↦ (
          (ground (arith, up, stream, some_ds, empty), ground (arith, up, stream, some_ds, empty)),
          ground (arith, up, stream, some_ds, empty),
          ground (
            arith,
            up,
            stream,
            some_ds,
            empty,
            nothing_read address ds empty,
            append-nil (read_all address w.writes),
          ),
        )
        | inr full ↦ (
          (
            ground (arith, up, stream, some_ds, full, always b),
            ground (arith, up, stream, some_ds, full, always b),
          ),
          ground (arith, up, stream, some_ds, full, always b),
          ap (read_all address) (ground (arith, up, stream, some_ds, full, always b))
              ∙ read_all-snoc address w.writes b
              ∙ ap (λ rs. read_all address w.writes ++ rs)
                  (handle_message_batch-encode registry pid_at address ds),
        )
      ]

  -- After the messages `before`: some whole batches of them are written, and the rest, less than a
  -- batch, is queued.
  abbrev pub Batched : Bytes → List (RemoteDeliver M) → EndpointWriter M → Type 0
  Batched address before w =
      (sent : List (RemoteDeliver M)) × (batches : ℕ) × (before ≡ sent ++ w.message_queue)
      × (length sent ≡ batches * batch_size)
      × (length w.message_queue < batch_size)
      × (read_all address w.writes ≡ all_arrive registry pid_at address sent)

  all_arrive-append :
      (address : Bytes) (xs ys : List (RemoteDeliver M))
      → all_arrive registry pid_at address (xs ++ ys)
        ≡ all_arrive registry pid_at address xs ++ all_arrive registry pid_at address ys
  all_arrive-append address [] ys = refl
  all_arrive-append address (x ∷ xs) ys =
      ap (λ rs. arrives registry pid_at address x ++ rs) (all_arrive-append address xs ys)
      ∙ sym (
          append_assoc (arrives registry pid_at address x) (all_arrive registry pid_at address xs)
            _)

  abbrev Goes : Bytes → List (RemoteDeliver M) → EndpointWriter M → Type 0
  Goes address before w = Open w × Batched address before w

  handle-Goes :
      (address : Bytes) (d : RemoteDeliver M) (before : List (RemoteDeliver M))
      (w : EndpointWriter M)
      → ((b : MessageBatch) → written b ≡ true)
      → Goes address before w
      → Goes address (before ++ d ∷ []) (handle_deliver registry pid_at written batch_size d w)
  handle-Goes address d before w always (open_w, (sent, batches, all, size, short, reads)) =
      elim (lt_or_eq (length w.message_queue + 1) batch_size (omega arith)) [
        | inl less ↦ rw (waits d w less) (
          open_w,
          (
            sent,
            batches,
            ap (λ b. b ++ d ∷ []) all ∙ append_assoc sent w.message_queue (d ∷ []),
            size,
            omega (arith, less, length-append w.message_queue (d ∷ [])),
            reads,
          ),
        )
        | inr full ↦
            let q = w.message_queue ++ d ∷ [] in
            let (open', queue, reads') =
              send-Writes address (record w { message_queue = [] }) q always open_w
                (is_nil-snoc w.message_queue d) in
            rw (sends d w full) (
              open',
              (
                sent ++ q,
                batches + 1,
                ap (λ b. b ++ d ∷ []) all
                    ∙ append_assoc sent w.message_queue (d ∷ [])
                    ∙ sym (append-nil (sent ++ q))
                    ∙ ap (λ rest. sent ++ q ++ rest) (sym queue),
                ground (
                  arith,
                  length-append sent q,
                  length-append w.message_queue (d ∷ []),
                  full,
                  size,
                ),
                ground (arith, queue, full),
                reads'
                    ∙ ap (λ rs. rs ++ all_arrive registry pid_at address q) reads
                    ∙ sym (all_arrive-append address sent q),
              ),
            )
      ]

  deliver_all-Goes :
      (address : Bytes) (ds before : List (RemoteDeliver M)) (w : EndpointWriter M)
      → ((b : MessageBatch) → written b ≡ true)
      → Goes address before w
      → Goes address (before ++ ds) (deliver_all ds w)
  unfolding deliver_all
  deliver_all-Goes address [] before w always goes = rw (append-nil before) goes
  deliver_all-Goes address (d ∷ ds) before w always goes = rw⁻¹ (append_assoc before (d ∷ []) ds) (
      deliver_all-Goes address ds (before ++ d ∷ [])
        (handle_deliver registry pid_at written batch_size d w) always
        (handle-Goes address d before w always goes))

  -- A connected writer whose queue is empty and whose writes succeed, given any messages, has written
  -- the first of them, whole batches of batch_size, as they are to be read, in order; the others,
  -- fewer than a batch, stay in the queue until more come.
  pub deliver_all-Batched :
      (address : Bytes) (w : EndpointWriter M) (ds : List (RemoteDeliver M))
      → ((b : MessageBatch) → written b ≡ true)
      → Open w
      → w.message_queue ≡ []
      → w.writes ≡ []
      → 0 < batch_size
      → Batched address ds (deliver_all ds w)
  deliver_all-Batched address w ds always open_w empty unwritten positive =
      (deliver_all-Goes address ds [] w always (
        open_w,
        (
          [],
          0,
          sym empty,
          omega arith,
          ground (arith, empty, positive),
          ap (read_all address) unwritten,
        ),
      )).1
