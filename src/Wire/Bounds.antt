-- ===== src/Wire/Bounds.antt =====
-- The sizes and the indices of a batch (endpoint_writer.cpp), which the code keeps in `int32_t`.
use protoactor_cpp.Base.{
  ℕ, ◌+◌, ◌<◌, ◌≤◌, ◌≡◌, inl, inr, Option, none, some, List, [], ◌∷◌, ◌++◌, Eq, nat_eq, bytes_eq,
  Bytes, length, lookup, arith, Option-cases, All, length-append,
}
use protoactor_cpp.Pid.{Pid}
use protoactor_cpp.Serializer.{SerializerRegistry, serialize}
use protoactor_cpp.Wire.{
  RemoteDeliver, Envelope, MessageBatch, Tables, new_tables, index_of, id_or_minus_one,
  sender_index_of, envelope_tables, new_envelope, add_deliver, add_all, encode,
}
use protoactor_cpp.Wire.Indices.{
  Indexed, Indexed-insert, index_of_new, index_of_there, get_elem?-some-lt,
}

module _ {A K : Type 0} ⦃e : Eq K⦄ (first : ℕ) (view : K → A) where
  -- At most one more entry, and the index is that of an entry.
  abbrev Within : List A → ℕ × List (K × ℕ) × List A → Type 0
  Within entries (index, table, grown) =
      (length entries ≤ length grown)
      × (length grown ≤ length entries + 1)
      × (index < length grown + first)
      × Indexed first view table grown

  index_of-Within :
      (key : K) (table : List (K × ℕ)) (entries : List A)
      → Indexed first view table entries
      → Within entries (index_of first key (view key) table entries)
  index_of-Within key table entries good = elim (Option-cases (lookup key table)) [
    | inr (index, there) ↦
        let (j, at_j, found) = good key index there in
        rw (index_of_there first view key table entries index there) (
          omega arith,
          omega arith,
          omega (arith, at_j, get_elem?-some-lt entries j (view key) found),
          good,
        )
    | inl new ↦
        let one_more = length-append entries (view key ∷ []) in
        rw (index_of_new first view key table entries new) (
          omega (arith, one_more),
          omega (arith, one_more),
          omega (arith, one_more),
          Indexed-insert first view key table entries good,
        )
  ]

-- The indices of an envelope are those of entries of tables of these sizes; the sender's counts from 1.
abbrev pub InRange : ℕ → ℕ → ℕ → Envelope → Type 0
InRange names targets senders e =
    (e.type_id < names) × (e.target_index < targets) × (e.sender_index ≤ senders)

abbrev pub AllInRange : MessageBatch → Type 0
AllInRange b = All (InRange (length b.type_names) (length b.targets) (length b.senders)) b.envelopes

-- No table is longer than the envelopes.
abbrev pub Small : MessageBatch → Type 0
Small b =
    (length b.type_names ≤ length b.envelopes)
    × (length b.targets ≤ length b.envelopes)
    × (length b.senders ≤ length b.envelopes)

InRange-append :
    (n t s n' t' s' : ℕ) (es : List Envelope) (e : Envelope)
    → n ≤ n'
    → t ≤ t'
    → s ≤ s'
    → All (InRange n t s) es
    → InRange n' t' s' e
    → All (InRange n' t' s') (es ++ e ∷ [])
InRange-append n t s n' t' s' [] e hn ht hs all last = (last, tt)
InRange-append n t s n' t' s' (d ∷ ds) e hn ht hs ((a, b, c), all) last =
    ((omega arith, omega arith, omega arith), InRange-append n t s n' t' s' ds e hn ht hs all last)

module _ {M : Type 0} (registry : SerializerRegistry M) (pid_at : ℕ → Pid) where
  abbrev fields : ℕ → Bytes × Bytes
  fields pointer = ((pid_at pointer).address, (pid_at pointer).id)

  abbrev Good : Tables → Type 0
  Good t =
      Indexed 0 (λ name. name) t.type_name_map t.batch.type_names
      × Indexed 0 (λ id. id) t.target_map t.batch.targets
      × Indexed 1 fields t.sender_map t.batch.senders
      × AllInRange t.batch
      × Small t.batch

  sender-Within :
      (sender : Option ℕ) (table : List (ℕ × ℕ)) (entries : List (Bytes × Bytes))
      → Indexed 1 fields table entries
      → Within 1 fields entries (sender_index_of pid_at sender table entries)
  sender-Within none table entries good = (omega arith, omega arith, omega arith, good)
  sender-Within (some pointer) table entries good =
      index_of-Within 1 fields pointer table entries good

  envelope-Good :
      (d : RemoteDeliver M) (target : Pid) (bytes name : Bytes) (t : Tables)
      → Good t
      → Good (envelope_tables pid_at d target bytes name t)
  envelope-Good d target bytes name t (names, targets, senders, ranges, small) =
      let (n₁, n₂, n₃, names') =
        index_of-Within 0 (λ n. n) name t.type_name_map t.batch.type_names names in
      let (t₁, t₂, t₃, targets') =
        index_of-Within 0 (λ i. i) target.id t.target_map t.batch.targets targets in
      let (s₁, s₂, s₃, senders') = sender-Within d.sender t.sender_map t.batch.senders senders in
      let more = length-append t.batch.envelopes (
        new_envelope pid_at d target bytes
          (index_of 0 name name t.type_name_map t.batch.type_names).0
          (index_of 0 target.id target.id t.target_map t.batch.targets).0
          (sender_index_of pid_at d.sender t.sender_map t.batch.senders).0
        ∷ []) in
      (
        names',
        targets',
        senders',
        InRange-append _ _ _ _ _ _ t.batch.envelopes _ n₁ t₁ s₁ ranges
            (omega (arith, n₃), omega (arith, t₃), omega (arith, s₃)),
        (
          omega (arith, n₂, more, small),
          omega (arith, t₂, more, small),
          omega (arith, s₂, more, small),
        ),
      )

  abbrev Adds : Tables → Tables → Type 0
  Adds t t' = Good t' × (length t'.batch.envelopes ≤ length t.batch.envelopes + 1)

  add_deliver-Adds :
      (d : RemoteDeliver M) (t : Tables) → Good t → Adds t (add_deliver registry pid_at d t)
  add_deliver-Adds d t good = elim (Option-cases d.target) [
    | inl e ↦ same (unfold add_deliver in ground (arith, e))
    | inr (target, e) ↦
        elim (Option-cases (serialize registry d.message (id_or_minus_one d.serializer_id))) [
          | inl f ↦ same (unfold add_deliver in ground (arith, e, f))
          | inr ((bytes, name), f) ↦
              more target bytes name (unfold add_deliver in ground (arith, e, f))
        ]
  ]
    where
      same : add_deliver registry pid_at d t ≡ t → Adds t (add_deliver registry pid_at d t)
      same e = rw e (good, omega arith)

      more :
          (target : Pid) (bytes name : Bytes)
          → add_deliver registry pid_at d t ≡ envelope_tables pid_at d target bytes name t
          → Adds t (add_deliver registry pid_at d t)
      more target bytes name e =
          rw e (envelope-Good d target bytes name t good, omega (arith, length-append {0}))

  add_all-Adds :
      (ds : List (RemoteDeliver M)) (t : Tables)
      → Good t
      → Good (add_all registry pid_at ds t)
        × (length (add_all registry pid_at ds t).batch.envelopes
            ≤ length t.batch.envelopes + length ds)
  unfolding add_all
  add_all-Adds [] t good = (good, omega arith)
  add_all-Adds (d ∷ ds) t good =
      let (good', one) = add_deliver-Adds d t good in
      let (all, few) = add_all-Adds ds (add_deliver registry pid_at d t) good' in
      (all, omega (arith, one, few))

  -- In the batch that is written for any messages, every index is that of an entry of its table (a
  -- sender's counts from 1, and 0 is none), and there are no more envelopes than messages and no more
  -- entries in a table than envelopes.
  pub encode-InRange :
      (ds : List (RemoteDeliver M))
      → let b = encode registry pid_at ds in
        AllInRange b × Small b × (length b.envelopes ≤ length ds)
  unfolding encode lookup
  encode-InRange ds =
      let ((_, _, _, ranges, small), few) = add_all-Adds ds new_tables (
        λ key index h. absurd (ground (arith, h)),
        λ key index h. absurd (ground (arith, h)),
        λ key index h. absurd (ground (arith, h)),
        tt,
        (omega arith, omega arith, omega arith),
      ) in
      (ranges, small, omega (arith, few))
