-- ===== src/Registry/Refinement.antt =====
-- ProcessRegistry against one flat table of names (process_registry.cpp): the shards and the hash
-- cannot be told from outside.
use mathlib.Core.Path.{fun_ext}
use protoactor_cpp.Base.{
  ℕ, ◌+◌, ◌%◌, ◌^◌, ◌<◌, ◌≡◌, refl, sym, ap, Bool, true, false, not, ◌&&◌, Option, none, some, List,
  [], ◌∷◌, ◌++◌, arith, Bytes, bytes_beq, bytes_beq_iff, eqb, eqb_iff, if◌then◌else◌, lookup,
  insert, erase, lookup-insert, lookup-erase, inl, inr, Bool-cases, bytes_eq, lt→ltb,
}
use protoactor_cpp.Pid.{Pid, new_pid}
use protoactor_cpp.Registry.Ids.{uint64_to_id}
use protoactor_cpp.Registry.{
  Registry, num_shards, get_bucket, with_shard, next_id, add, remove, get_local, get, clear,
  register_address_resolver, ask_handlers, found_or, local_address, add_to,
}

pub get_bucket-lt : (key : Bytes) → get_bucket key < num_shards
unfolding get_bucket
get_bucket-lt key = omega arith

-- Names of different shards differ.
bytes_beq_of_apart :
    (id j : Bytes) → eqb (get_bucket j) (get_bucket id) ≡ false → bytes_beq id j ≡ false
bytes_beq_of_apart id j apart = elim (Bool-cases (bytes_beq id j)) [
  | inl same ↦
      let e = (bytes_beq_iff id j).0 same in
      let b : eqb (get_bucket j) (get_bucket id) ≡ true = (eqb_iff _ _).1 (ap get_bucket (sym e)) in
      cc
  | inr differs ↦ differs
]

module _ {P : Type 0} where
  -- What the registry holds under a name.
  unfoldable pub entry : Registry P → Bytes → Option P
  entry r id = lookup id (r.local_pids (get_bucket id))

  entry-insert :
      (r : Registry P) (id j : Bytes) (p : P)
      → entry (with_shard r (get_bucket id) (insert id p (r.local_pids (get_bucket id)))) j
        ≡ (if bytes_beq id j then some p else entry r j)
  unfolding entry
  entry-insert r id j p = elim (Bool-cases (eqb (get_bucket j) (get_bucket id))) [
    | inl same ↦
        rw (same, lookup-insert id j p (r.local_pids (get_bucket id)))
          (ap (λ b. if bytes_beq id j then some p else lookup j (r.local_pids b))
            (sym ((eqb_iff _ _).0 same)))
    | inr apart ↦ rw (apart, bytes_beq_of_apart id j apart)
  ]

  entry-erase :
      (r : Registry P) (id j : Bytes)
      → entry (with_shard r (get_bucket id) (erase id (r.local_pids (get_bucket id)))) j
        ≡ (if bytes_beq id j then none else entry r j)
  unfolding entry
  entry-erase r id j = elim (Bool-cases (eqb (get_bucket j) (get_bucket id))) [
    | inl same ↦
        rw (same, lookup-erase id j (r.local_pids (get_bucket id)))
          (ap (λ b. if bytes_beq id j then none else lookup j (r.local_pids b))
            (sym ((eqb_iff _ _).0 same)))
    | inr apart ↦ rw (apart, bytes_beq_of_apart id j apart)
  ]

-- The specification: one table from names to processes.
pub record Table (P : Type 0) : Type 0 where
  pub sequence_id : ℕ
  pub address : Bytes
  pub process : Bytes → Option P
  pub handlers : List (Pid → P × Bool)

pub data Call (P : Type 0) : Type 0 where
  next_ids clears : Call P
  adds : P → Bytes → Call P
  removes : Option Pid → Call P
  gets : Option Pid → Call P
  gets_local : Bytes → Call P
  resolves : (Pid → P × Bool) → Call P

pub data Reply (P : Type 0) : Type 0 where
  done : Reply P
  name : Option Bytes → Reply P
  registered : Pid × Bool → Reply P
  found : P × Bool → Reply P

module _ {P : Type 0} (dead_letter : P) where
  unfoldable pub step : Registry P → Call P → Registry P × Reply P
  step r next_ids = let (r', id) = next_id r in (r', name id)
  step r clears = (clear r, done)
  step r (adds p id) = let (r', answer) = add r p id in (r', registered answer)
  step r (removes pid) = (remove r pid, done)
  step r (gets pid) = (r, found (get dead_letter r pid))
  step r (gets_local id) = (r, found (get_local dead_letter r id))
  step r (resolves h) = (register_address_resolver r h, done)

  unfoldable pub replies : Registry P → List (Call P) → List (Reply P)
  replies r [] = []
  replies r (c ∷ cs) = let (r', answer) = step r c in answer ∷ replies r' cs

  unfoldable pub spec_remove : Table P → Option Pid → Table P
  spec_remove t none = t
  spec_remove t (some pid) = record t {
    process = λ j. if bytes_beq pid.id j then none else t.process j;
  }

  unfoldable pub spec_add : Table P → P → Bytes → Option P → Table P × (Pid × Bool)
  spec_add t p id (some other) = (t, (new_pid t.address id, false))
  spec_add t p id none = (
    record t { process = λ j. if bytes_beq id j then some p else t.process j },
    (new_pid t.address id, true),
  )

  unfoldable pub spec_get : Table P → Option Pid → P × Bool
  spec_get t none = (dead_letter, false)
  spec_get t (some pid) =
      if not (bytes_beq pid.address local_address) && not (bytes_beq pid.address t.address)
      then ask_handlers dead_letter t.handlers pid
      else found_or dead_letter (t.process pid.id)

  unfoldable pub spec_step : Table P → Call P → Table P × Reply P
  unfolding spec_remove spec_add spec_get
  spec_step t next_ids =
      let n = (t.sequence_id + 1) % 2 ^ 64 in (record t { sequence_id = n }, name (uint64_to_id n))
  spec_step t clears = (record t { process = λ _. none }, done)
  spec_step t (adds p id) =
      let (t', answer) = spec_add t p id (t.process id) in (t', registered answer)
  spec_step t (removes pid) = (spec_remove t pid, done)
  spec_step t (gets pid) = (t, found (spec_get t pid))
  spec_step t (gets_local id) = (t, found (found_or dead_letter (t.process id)))
  spec_step t (resolves h) = (record t { handlers = t.handlers ++ h ∷ [] }, done)

  unfoldable pub spec_replies : Table P → List (Call P) → List (Reply P)
  spec_replies t [] = []
  spec_replies t (c ∷ cs) = let (t', answer) = spec_step t c in answer ∷ spec_replies t' cs

  -- The table that a registry stands for.
  abbrev pub view : Registry P → Table P
  view r = record {
    sequence_id = r.sequence_id;
    address = r.address;
    process = entry r;
    handlers = r.remote_handlers;
  }

  view-clear : (r : Registry P) → entry (clear r) ≡ (λ _. none)
  unfolding entry clear lookup
  view-clear r = fun_ext (λ id. rw (lt→ltb _ _ (get_bucket-lt id)))

  view-add :
      (r : Registry P) (p : P) (id : Bytes) (o : Option P)
      → let (r', answer) = add_to r (get_bucket id) p id o in
        (view r', answer) ≡ spec_add (view r) p id o
  unfolding add_to spec_add
  view-add r p id (some q) = refl
  view-add r p id none =
      ap (λ f. (record (view r) { process = f }, (new_pid r.address id, true)))
        (fun_ext (λ j. entry-insert r id j p))

  view-remove : (r : Registry P) (pid : Option Pid) → view (remove r pid) ≡ spec_remove (view r) pid
  unfolding remove spec_remove
  view-remove r none = refl
  view-remove r (some pid) =
      ap (λ f. record (view r) { process = f }) (fun_ext (λ j. entry-erase r pid.id j))

  -- Each call gives the table's answer and leaves the table's next state.
  view-step :
      (r : Registry P) (c : Call P)
      → let (r', answer) = step r c in (view r', answer) ≡ spec_step (view r) c
  unfolding step spec_step entry
  view-step r next_ids = unfold next_id in refl
  view-step r clears =
      unfold clear in ap (λ f. (record (view r) { process = f }, done)) (view-clear r)
  view-step r (adds p id) =
      unfold add entry in
      ap (λ q. (q.0, registered q.1)) (view-add r p id (lookup id (r.local_pids (get_bucket id))))
  view-step r (removes pid) = ap (λ t. (t, done)) (view-remove r pid)
  view-step r (gets none) = unfold get in refl
  view-step r (gets (some pid)) = unfold get get_local entry in refl
  view-step r (gets_local id) = unfold get_local entry in refl
  view-step r (resolves h) = unfold register_address_resolver in refl

  -- Whatever calls are made, the registry answers each as one flat table of names would.
  pub replies-Table :
      (r : Registry P) (cs : List (Call P)) → replies r cs ≡ spec_replies (view r) cs
  unfolding replies spec_replies
  replies-Table r [] = refl
  replies-Table r (c ∷ cs) =
      rw (← view-step r c) (ap (λ l. (step r c).1 ∷ l) (replies-Table (step r c).0 cs))
