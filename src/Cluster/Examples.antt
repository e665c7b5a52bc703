-- ===== src/Cluster/Examples.antt =====
-- A cluster on small inputs.
use protoactor_cpp.Base.{◌≡◌, ◌+◌, ◌<◌, refl, true, false, none, some, [], ◌∷◌, length}
use protoactor_cpp.PubSub.{new_pub_sub, start, stop}
use protoactor_cpp.Cluster.{
  Cluster, new_cluster, start_cluster, start_gossiping, shutdown, step, run, starts, loop_moves,
  topology_arrives,
}
use protoactor_cpp.Cluster.Loops.{
  alive_at, pending, three_moves, shutdown_throws, shutdown_ends, restart_doubles, shutdown_lost,
}

-- A loop that has sent once and sleeps, with a delivery actor.
abbrev asleep : Cluster
asleep = run (new_cluster (b'm' ∷ [])) (starts (some 3) ∷ loop_moves 0 5 ∷ loop_moves 0 5 ∷ [])

-- It was shut down once, and a loop has found it running.
abbrev half_shut : Cluster
half_shut = run (shutdown asleep) (loop_moves 0 6 ∷ loop_moves 0 6 ∷ [])

asleep_alive : alive_at asleep 0 ≡ true
unfolding run step start_cluster new_cluster
asleep_alive = refl

half_shut_alive : alive_at half_shut 0 ≡ true
unfolding run step start_cluster new_cluster shutdown start_gossiping stop start new_pub_sub
half_shut_alive = refl

returns : shutdown_throws half_shut ≡ false
unfolding run step start_cluster new_cluster shutdown start_gossiping stop start new_pub_sub
returns = refl

shutdown_ends_example :
    let s = run (shutdown half_shut) (topology_arrives none ∷ loop_moves 0 6 ∷ []) in
    (s.gossip.informer.local_seq_number + pending s.gossip.loops
      ≡ half_shut.gossip.informer.local_seq_number + pending half_shut.gossip.loops)
    × (alive_at (three_moves s 0 7) 0 ≡ false)
shutdown_ends_example =
    shutdown_ends half_shut (topology_arrives none ∷ loop_moves 0 6 ∷ []) 0 7 returns refl

restart_doubles_example :
    let s = run (start_cluster none (shutdown half_shut)) (loop_moves 0 9 ∷ []) in
    let new = length half_shut.gossip.loops in
    (0 < new) × (alive_at s 0 ≡ true) × (alive_at s new ≡ true)
restart_doubles_example =
    restart_doubles half_shut none (loop_moves 0 9 ∷ []) 0 returns half_shut_alive refl

running : asleep.pubsub.running ≡ true
unfolding run step start_cluster new_cluster start new_pub_sub
running = refl

gossiping : asleep.gossip.running ≡ true
unfolding run step start_cluster new_cluster start_gossiping
gossiping = refl

shutdown_lost_example :
    (shutdown_throws asleep ≡ true)
    × (alive_at (run (shutdown asleep) (loop_moves 0 8 ∷ starts none ∷ [])) 0 ≡ true)
    × (shutdown_throws (shutdown asleep) ≡ false)
unfolding run step start_cluster new_cluster start new_pub_sub
shutdown_lost_example =
    shutdown_lost asleep (loop_moves 0 8 ∷ starts none ∷ []) 0 running refl gossiping asleep_alive
      refl
