-- ===== src/Gossip/Local.antt =====
-- The member's own sequence number (gossip.cpp).
use protoactor_cpp.Base.{
  ℕ, ◌+◌, ◌≡◌, refl, ap, ◌∙◌, Bool, false, ◌||◌, Option, none, some, List, [], ◌∷◌, Bytes, bytes_eq,
  bytes_beq, bytes_beq_iff, lookup, lookup-insert, eqb, if◌then◌else◌, arith,
}
use protoactor_cpp.MemberList.{ClusterTopology}
use protoactor_cpp.Gossip.{
  GossipMemberState, GossipUpdate, Informer, new_informer, update_cluster_topology, set_state,
  state_or_new, merge_state, receive_gossip,
}
use protoactor_cpp.Gossip.Merging.{sequence_of, seq_of, merge_seq, larger-none, topology_known}

-- What happens to an informer, each at its time.
pub data Call : Type 0 where
  topology : ℕ → List Bytes → Option ClusterTopology → Call
  sets : ℕ → Call
  gossips : ℕ → Option GossipUpdate → Call

unfoldable pub handle : Informer → Call → Informer
handle s (topology now blocked t) = update_cluster_topology now blocked s t
handle s (sets now) = set_state now s
handle s (gossips now update) = receive_gossip now s update

unfoldable pub run : Informer → List Call → Informer
run s [] = s
run s (c ∷ cs) = run (handle s c) cs

abbrev names : Bytes → Option GossipUpdate → Bool
names id none = false
names id (some update) = bytes_beq update.member_id id

abbrev call_names : Bytes → Call → Bool
call_names id (gossips now update) = names id update
call_names id c = false

-- Gossip says something of this member itself.
abbrev pub gossiped_of : Bytes → List Call → Bool
gossiped_of id [] = false
gossiped_of id (c ∷ cs) = call_names id c || gossiped_of id cs

abbrev counted : Call → ℕ
counted (topology now blocked (some t)) = 1
counted (sets now) = 1
counted c = 0

-- The calls that count: topologies and states that are set.
abbrev pub local_calls : List Call → ℕ
local_calls [] = 0
local_calls (c ∷ cs) = counted c + local_calls cs

-- The number that is known of this member is its own count.
abbrev pub number : ℕ → Option ℕ
number n = if eqb n 0 then none else some n

abbrev Counts : Informer → Type 0
Counts s = seq_of s s.my_id ≡ number s.local_seq_number

-- One call that keeps the number right and counts by `n`.
abbrev Steps : Informer → ℕ → Informer → Type 0
Steps s n s' = Counts s' × (s'.local_seq_number ≡ s.local_seq_number + n) × (s'.my_id ≡ s.my_id)

topology-Steps :
    (s : Informer) (now : ℕ) (blocked : List Bytes) (t : ClusterTopology)
    → Steps s 1 (update_cluster_topology now blocked s (some t))
topology-Steps s now blocked t =
    let (known, counted) = topology_known now blocked s t s.my_id in
    let same : (update_cluster_topology now blocked s (some t)).my_id ≡ s.my_id =
      unfold update_cluster_topology in refl in
    (
      ap (λ id. sequence_of (lookup id (update_cluster_topology now blocked s (some t)).state)) same
          ∙ ground (arith, known, counted, bytes_beq_iff s.my_id s.my_id),
      counted,
      same,
    )

sets-Steps : (s : Informer) (now : ℕ) → Steps s 1 (set_state now s)
unfolding set_state
sets-Steps s now =
    let mine : GossipMemberState = record (state_or_new (lookup s.my_id s.state)) {
      sequence_number = s.local_seq_number + 1;
      heartbeat = now;
    } in
    (
      ground (arith, lookup-insert s.my_id s.my_id mine s.state, bytes_beq_iff s.my_id s.my_id),
      refl,
      refl,
    )

gossips-Steps :
    (s : Informer) (now : ℕ) (update : Option GossipUpdate)
    → Counts s
    → names s.my_id update ≡ false
    → Steps s 0 (receive_gossip now s update)
unfolding receive_gossip
gossips-Steps s now none counts other = unfold merge_state in (counts, omega arith, refl)
gossips-Steps s now (some update) counts other =
    let same = merge_seq now s (some update) s.my_id in
    let kept : ((merge_state now s (some update)).local_seq_number ≡ s.local_seq_number)
        × ((merge_state now s (some update)).my_id ≡ s.my_id) =
      unfold merge_state in (ground arith, ground arith) in
    (
      ap (λ id. sequence_of (lookup id (merge_state now s (some update)).state)) kept.1
          ∙ same
          ∙ ground (arith, other, larger-none (seq_of s s.my_id), counts, kept.0),
      ground (arith, kept.0),
      kept.1,
    )

handle-Steps :
    (s : Informer) (c : Call)
    → Counts s
    → call_names s.my_id c ≡ false
    → Steps s (counted c) (handle s c)
unfolding handle
handle-Steps s (topology now blocked (some t)) counts quiet = topology-Steps s now blocked t
handle-Steps s (topology now blocked none) counts quiet =
    unfold update_cluster_topology in (counts, omega arith, refl)
handle-Steps s (sets now) counts quiet = sets-Steps s now
handle-Steps s (gossips now update) counts quiet = gossips-Steps s now update counts quiet

run-Steps :
    (s : Informer) (cs : List Call)
    → Counts s
    → gossiped_of s.my_id cs ≡ false
    → Steps s (local_calls cs) (run s cs)
unfolding run
run-Steps s [] counts quiet = (counts, omega arith, refl)
run-Steps s (c ∷ cs) counts quiet =
    let (counts', more, same) = handle-Steps s c counts (ground (arith, quiet)) in
    let (last, all, same') = run-Steps (handle s c) cs counts' (ground (arith, quiet, same)) in
    (last, omega (arith, more, all), same' ∙ same)

-- As long as no gossip speaks of the member itself, the number that its own state has is the count of
-- the topologies it was given and the states it set, and it has no state of its own before the first.
pub seq_of-run :
    (my_id : Bytes) (cs : List Call)
    → gossiped_of my_id cs ≡ false
    → seq_of (run (new_informer my_id) cs) my_id ≡ number (local_calls cs)
unfolding new_informer lookup
seq_of-run my_id cs quiet =
    let (counts, all, same) = run-Steps (new_informer my_id) cs refl quiet in
    ground (arith, counts, all, same)
