-- ===== src/MemberList.antt =====
-- src/cluster/member.cpp, include/internal/cluster/cluster_topology.h and src/cluster/member_list.cpp:
-- the members of a cluster. A shared pointer to a member or a topology is its value, or `none` if it
-- is null; the pointers of a vector of members are not null, since the code follows them. Publish of
-- the event stream is a list of what is published.
pub mod Topologies
mod Examples
use protoactor_cpp.Base.{
  ℕ, ◌&&◌, Bool, true, false, Option, none, some, List, [], ◌∷◌, ◌++◌, Bytes, bytes_beq, find,
  if◌then◌else◌,
}

pub record Member : Type 0 where
  pub id : Bytes
  pub host : Bytes
  pub port : ℕ
  pub last_heartbeat : ℕ
  pub alive : Bool

-- `decimal` prints a number, as the stream does.
unfoldable pub member_address : (ℕ → Bytes) → Member → Bytes
member_address decimal m = m.host ++ (b':' ∷ decimal m.port)

unfoldable pub update_heartbeat : ℕ → Member → Member
update_heartbeat now m = record m { last_heartbeat = now; alive = true }

unfoldable pub new_member : ℕ → Bytes → Bytes → ℕ → Member
unfolding update_heartbeat
new_member now id host port =
    update_heartbeat now
      (record { id = id; host = host; port = port; last_heartbeat = 0; alive = true })

pub record ClusterTopology : Type 0 where
  pub members : List Member
  pub left : List Member
  pub blocked : List Bytes

pub record MemberList : Type 0 where
  pub members : List Member
  pub published : List ClusterTopology

-- GossipUpdate of src/cluster/gossip.cpp, as far as the list reads it: the value under the key
-- "topology" is a topology.
pub record GossipUpdate : Type 0 where
  pub key_is_topology : Bool
  pub value : Option ClusterTopology

unfoldable pub new_member_list : MemberList
new_member_list = record { members = []; published = [] }

unfoldable pub get_members : MemberList → List Member
get_members s = s.members

unfoldable pub get_member : MemberList → Bytes → Option Member
get_member s member_id = find (λ m. bytes_beq m.id member_id) s.members

unfoldable pub update_topology : MemberList → Option ClusterTopology → MemberList
update_topology s none = s
update_topology s (some topology) = record {
  members = topology.members;
  published = s.published ++ topology ∷ [];
}

unfoldable pub handle_gossip_update : MemberList → Option GossipUpdate → MemberList
unfolding update_topology
handle_gossip_update s none = s
handle_gossip_update s (some update) =
    if update.key_is_topology then update_topology s update.value else s
