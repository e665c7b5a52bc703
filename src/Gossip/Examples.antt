-- ===== src/Gossip/Examples.antt =====
-- Member 1, with gossip about members 2 and 3.
use protoactor_cpp.Base.{
  ℕ, ◌-◌, ◌≡◌, refl, arith, none, some, List, [], ◌∷◌, ◌++◌, bytes_eq, Option,
}
use protoactor_cpp.MemberList.{ClusterTopology, new_member}
use protoactor_cpp.Gossip.{GossipUpdate, Informer, new_informer, update_cluster_topology}
use protoactor_cpp.Gossip.Merging.{seq_of, merge_all, merge_all_converges}
use protoactor_cpp.Gossip.Local.{topology, sets, gossips, Call}
use protoactor_cpp.Gossip.Selection.{InRange}

abbrev me : Informer
me = new_informer (1 ∷ [])

abbrev says : ℕ → ℕ → ℕ × Option GossipUpdate
says member seq = (0, some (record { sequence_number = seq; member_id = member ∷ [] }))

abbrev first : List (ℕ × Option GossipUpdate)
first = says 2 5 ∷ says 3 1 ∷ []

abbrev second : List (ℕ × Option GossipUpdate)
second = says 2 4 ∷ (0, none) ∷ says 3 7 ∷ []

merge_all_converges_example :
    seq_of (merge_all me (first ++ second)) (3 ∷ [])
    ≡ seq_of (merge_all me (second ++ first)) (3 ∷ [])
merge_all_converges_example = merge_all_converges me me first second (3 ∷ []) refl

abbrev members : ClusterTopology
members = record {
  members = new_member 0 (1 ∷ []) [] 80 ∷ new_member 0 (3 ∷ []) [] 80 ∷ [];
  left = [];
  blocked = [];
}

abbrev calls : List Call
calls =
    topology 1 [] (some members)
    ∷ gossips 2 (some (record { sequence_number = 8; member_id = 3 ∷ [] }))
    ∷ sets 3
    ∷ topology 4 [] none
    ∷ []

last_draw : ℕ → ℕ
last_draw size = size - 1

last_draw-InRange : InRange last_draw
unfolding last_draw
last_draw-InRange size positive = omega arith

abbrev informed : Informer
informed = update_cluster_topology 9 [] me (some members)
