-- ===== src/MemberList/Examples.antt =====
-- A topology given by gossip after another.
use protoactor_cpp.Base.{true, false, none, some, List, [], ◌∷◌}
use protoactor_cpp.MemberList.{Member, ClusterTopology, new_member}
use protoactor_cpp.MemberList.Topologies.{Call, updates, gossip_arrives}

abbrev with_members : List Member → ClusterTopology
with_members members = record { members = members; left = []; blocked = [] }

abbrev calls : List Call
calls =
    updates (some (with_members (new_member 5 (1 ∷ []) [] 80 ∷ [])))
    ∷ gossip_arrives (some (record { key_is_topology = false; value = some (with_members []) }))
    ∷ updates none
    ∷ gossip_arrives (
        some (record {
          key_is_topology = true;
          value = some (with_members (new_member 6 (2 ∷ []) [] 81 ∷ []));
        }))
    ∷ []
