-- ===== src/Cluster.antt =====
-- src/cluster/cluster.cpp: Cluster, its start and shutdown, and src/cluster/gossiper.cpp: the
-- Gossiper with its threads. A step is a call, or what one loop does next: its test of `running_`, its
-- SendState, or the end of its sleep. Remote::Start is left out, as nothing here uses the remote. The
-- blocked members are always none.
pub mod Loops
mod Examples
use protoactor_cpp.Base.{
  ℕ, Bool, true, false, Option, none, some, List, [], ◌∷◌, ◌++◌, Bytes, get_elem?, set,
  if◌then◌else◌,
}
use protoactor_cpp.MemberList.{
  MemberList, ClusterTopology, new_member_list, get_members, update_topology,
}
use protoactor_cpp.Gossip.{Informer, new_informer, update_cluster_topology}
use protoactor_cpp.PubSub.{PubSub, new_pub_sub, start, stop}
use protoactor_cpp.IdentityLookup.{PidCache, new_cache}

-- Where the thread of a GossipLoop stands.
pub data Loop : Type 0 where
  at_test at_send sleeping ended : Loop

pub record Gossiper : Type 0 where
  pub running : Bool
  pub informer : Informer
  pub loops : List Loop

-- `pid_cache` is a pointer, null before Initialize.
pub record Cluster : Type 0 where
  pub member_list : MemberList
  pub gossip : Gossiper
  pub pubsub : PubSub
  pub pid_cache : Option PidCache

-- `address` is the registry's.
unfoldable pub new_gossiper : Bytes → Gossiper
unfolding new_informer
new_gossiper address = record { running = false; informer = new_informer address; loops = [] }

unfoldable pub start_gossiping : Gossiper → Gossiper
start_gossiping g =
    if g.running then g else record g { running = true; loops = g.loops ++ at_test ∷ [] }

unfoldable pub stop_gossiping : Gossiper → Gossiper
stop_gossiping g = record g { running = false }

unfoldable pub send_state : ℕ → MemberList → Gossiper → Gossiper
unfolding update_cluster_topology get_members
send_state now members g = record g {
  informer =
      update_cluster_topology now [] g.informer
        (some (record { members = get_members members; left = []; blocked = [] }));
}

-- New, which does not call Initialize.
unfoldable pub new_cluster : Bytes → Cluster
unfolding new_gossiper new_member_list new_pub_sub
new_cluster address = record {
  member_list = new_member_list;
  gossip = new_gossiper address;
  pubsub = new_pub_sub;
  pid_cache = none;
}

unfoldable pub initialize : Cluster → Cluster
initialize c = record c { pid_cache = some new_cache }

-- `spawned` is the PID of the delivery actor.
unfoldable pub start_cluster : Option ℕ → Cluster → Cluster
unfolding start_gossiping start
start_cluster spawned c = record c {
  gossip = start_gossiping c.gossip;
  pubsub = start c.pubsub spawned;
}

-- If PubSub::Stop throws, StopGossiping is not reached.
unfoldable pub shutdown : Cluster → Cluster
unfolding stop_gossiping stop
shutdown c =
    let (pubsub, threw) = stop c.pubsub in
    if threw
    then record c { pubsub = pubsub }
    else record c { pubsub = pubsub; gossip = stop_gossiping c.gossip }

abbrev pub turn : ℕ → ℕ → MemberList → Gossiper → Option Loop → Gossiper
turn now i members g none = g
turn now i members g (some ended) = g
turn now i members g (some sleeping) = record g { loops = set g.loops i at_test }
turn now i members g (some at_test) = record g {
  loops = set g.loops i (if g.running then at_send else ended);
}
turn now i members g (some at_send) = record (send_state now members g) {
  loops = set g.loops i sleeping;
}

pub data Move : Type 0 where
  starts : Option ℕ → Move
  shuts_down : Move
  topology_arrives : Option ClusterTopology → Move
  loop_moves : ℕ → ℕ → Move

-- The loop with a number moves, at a time.
unfoldable pub step : Cluster → Move → Cluster
unfolding start_cluster shutdown update_topology send_state
step c (starts spawned) = start_cluster spawned c
step c shuts_down = shutdown c
step c (topology_arrives topology) = record c {
  member_list = update_topology c.member_list topology;
}
step c (loop_moves i now) = record c {
  gossip = turn now i c.member_list c.gossip (get_elem? c.gossip.loops i);
}

unfoldable pub run : Cluster → List Move → Cluster
unfolding step
run c [] = c
run c (m ∷ ms) = run (step c m) ms
