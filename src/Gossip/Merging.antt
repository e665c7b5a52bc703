-- ===== src/Gossip/Merging.antt =====
-- What is known of a member after gossip (gossip.cpp).
use protoactor_cpp.Base.{
  ℕ, ◌≡◌, refl, sym, ap, ◌∙◌, inl, inr, not, ◌&&◌, Option, none, some, List, [], ◌∷◌, ◌++◌, Bytes,
  bytes_eq, bytes_beq, bytes_beq_iff, lookup, lookup-insert, ltb, if◌then◌else◌, arith,
  Option-cases, Bool-cases, has, ◌+◌,
}
use protoactor_cpp.MemberList.{ClusterTopology}
use protoactor_cpp.Gossip.{
  GossipMemberState, GossipState, GossipUpdate, Informer, ids, keep_active, update_cluster_topology,
  merge_state,
}

abbrev pub sequence_of : Option GossipMemberState → Option ℕ
sequence_of none = none
sequence_of (some state) = some state.sequence_number

-- The sequence number of a member, if it is known.
abbrev pub seq_of : Informer → Bytes → Option ℕ
seq_of s id = sequence_of (lookup id s.state)

abbrev pub larger : Option ℕ → Option ℕ → Option ℕ
larger none b = b
larger (some a) none = some a
larger (some a) (some b) = some (if ltb a b then b else a)

-- The updates, each with its time.
unfoldable pub merge_all : Informer → List (ℕ × Option GossipUpdate) → Informer
merge_all s [] = s
merge_all s ((now, update) ∷ rest) = merge_all (merge_state now s update) rest

abbrev pub said_of : Bytes → Option GossipUpdate → Option ℕ
said_of id none = none
said_of id (some update) =
    if bytes_beq update.member_id id then some update.sequence_number else none

-- The largest number that the updates say of a member.
abbrev pub highest : Bytes → List (ℕ × Option GossipUpdate) → Option ℕ
highest id [] = none
highest id ((now, update) ∷ rest) = larger (said_of id update) (highest id rest)

pub larger_assoc : (a b c : Option ℕ) → larger (larger a b) c ≡ larger a (larger b c)
larger_assoc none b c = refl
larger_assoc (some a) none c = refl
larger_assoc (some a) (some b) none = refl
larger_assoc (some a) (some b) (some c) = ground arith

pub larger_comm : (a b : Option ℕ) → larger a b ≡ larger b a
larger_comm none none = refl
larger_comm none (some b) = refl
larger_comm (some a) none = refl
larger_comm (some a) (some b) = ground arith

pub larger-none : (a : Option ℕ) → larger a none ≡ a
larger-none none = refl
larger-none (some a) = refl

pub merge_seq :
    (now : ℕ) (s : Informer) (update : Option GossipUpdate) (id : Bytes)
    → seq_of (merge_state now s update) id ≡ larger (seq_of s id) (said_of id update)
unfolding merge_state
merge_seq now s none id = sym (larger-none (seq_of s id))
merge_seq now s (some update) id =
    let known = lookup update.member_id s.state in
    let seq = update.sequence_number in
    let next : GossipMemberState = record {
      sequence_number = seq;
      heartbeat = now;
      blocked = [];
      topology = none;
    } in
    let put_in = lookup-insert update.member_id id next s.state in
    elim (Bool-cases (bytes_beq update.member_id id)) [
      | inr other ↦ ground (arith, other, put_in, larger-none (sequence_of (lookup id s.state)))
      | inl same ↦
          let at_id : lookup id s.state ≡ known =
            ap (λ i. lookup i s.state) (sym ((bytes_beq_iff update.member_id id).0 same)) in
          elim (Option-cases known) [
            | inl new ↦ ground (arith, same, put_in, at_id, new)
            | inr (old, there) ↦ ground (arith, same, put_in, at_id, there)
          ]
    ]

-- After any updates, in whatever order they come, the sequence number known of a member is the largest
-- of the one before and those that the updates say; of a member that no update names it is the one
-- before.
pub seq_of-merge_all :
    (s : Informer) (updates : List (ℕ × Option GossipUpdate)) (id : Bytes)
    → seq_of (merge_all s updates) id ≡ larger (seq_of s id) (highest id updates)
unfolding merge_all
seq_of-merge_all s [] id = sym (larger-none (seq_of s id))
seq_of-merge_all s ((now, update) ∷ rest) id =
    seq_of-merge_all (merge_state now s update) rest id
    ∙ ap (λ n. larger n (highest id rest)) (merge_seq now s update id)
    ∙ larger_assoc (seq_of s id) (said_of id update) (highest id rest)

highest-append :
    (id : Bytes) (us vs : List (ℕ × Option GossipUpdate))
    → highest id (us ++ vs) ≡ larger (highest id us) (highest id vs)
highest-append id [] vs = refl
highest-append id ((now, update) ∷ us) vs =
    ap (larger (said_of id update)) (highest-append id us vs)
    ∙ sym (larger_assoc (said_of id update) (highest id us) (highest id vs))

-- Two members that get the same two batches of updates in opposite orders know the same sequence
-- numbers, if they did before.
pub merge_all_converges :
    (s s' : Informer) (us vs : List (ℕ × Option GossipUpdate)) (id : Bytes)
    → seq_of s id ≡ seq_of s' id
    → seq_of (merge_all s (us ++ vs)) id ≡ seq_of (merge_all s' (vs ++ us)) id
merge_all_converges s s' us vs id same =
    seq_of-merge_all s (us ++ vs) id
    ∙ ap (larger (seq_of s id)) (highest-append id us vs)
    ∙ ap (larger (seq_of s id)) (larger_comm (highest id us) (highest id vs))
    ∙ ap (λ n. larger n (larger (highest id vs) (highest id us))) same
    ∙ sym (ap (larger (seq_of s' id)) (highest-append id vs us))
    ∙ sym (seq_of-merge_all s' (vs ++ us) id)

lookup-keep_active :
    (my_id : Bytes) (active : List Bytes) (id : Bytes) (state : GossipState)
    → lookup id (keep_active my_id active state)
      ≡ (if not (bytes_beq id my_id) && not (has id active) then none else lookup id state)
unfolding lookup
lookup-keep_active my_id active id [] = ground arith
lookup-keep_active my_id active id (entry ∷ rest) =
    ground (arith, lookup-keep_active my_id active id rest, bytes_beq_iff entry.0 id)

-- A topology leaves of the state what it had of the members that are in the topology, and nothing
-- of the others; of this member it has the next local number, the topology and who is blocked.
pub topology_known :
    (now : ℕ) (blocked : List Bytes) (s : Informer) (topology : ClusterTopology) (id : Bytes)
    → let s' = update_cluster_topology now blocked s (some topology) in
      (lookup id s'.state ≡ (
        if bytes_beq s.my_id id
        then some (record {
          sequence_number = s.local_seq_number + 1;
          heartbeat = now;
          blocked = blocked;
          topology = some topology;
        })
        else if has id (ids topology.members)
        then lookup id s.state
        else none))
      × (s'.local_seq_number ≡ s.local_seq_number + 1)
unfolding update_cluster_topology
topology_known now blocked s topology id =
    let active = ids topology.members in
    let mine : GossipMemberState = record {
      sequence_number = s.local_seq_number + 1;
      heartbeat = now;
      blocked = blocked;
      topology = some topology;
    } in
    (
      ground (
        arith,
        lookup-insert s.my_id id mine (keep_active s.my_id active s.state),
        lookup-keep_active s.my_id active id s.state,
        bytes_beq_iff s.my_id id,
        bytes_beq_iff id s.my_id,
      ),
      refl,
    )
